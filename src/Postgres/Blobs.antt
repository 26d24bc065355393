-- ===== src/Postgres/Blobs.antt =====
-- An ingest session of a store on Postgres puts blobs and touches nothing else.
use chunkstore.Base.{◌≡◌, ◌∙◌, refl, sym, ap, List, [], ◌∷◌, is_some, All}
use chunkstore.Base.Text.{Text, Bytes, Text-discrete}
use chunkstore.Error.{ok}
use chunkstore.Exec.{each}
use chunkstore.Store.{IngestSession}
use chunkstore.Store.World.{World}
use chunkstore.Store.Frames.{BState}
use chunkstore.Store.Blobs.{IsHonest, put_blob_lem}
use chunkstore.Store.Reading.{encoded_in}
use chunkstore.Store.Session.{session_after, with_chunk}
use chunkstore.Store.Invariant.{WStore, Holds, Holds-move, view, digest}
use chunkstore.Postgres.Server.{Server}
use chunkstore.Postgres.Shared.{store_chunk, accept}

module _ (W : World) (Q : Server) where
  -- What accepting chunks leaves, on whatever metadata.
  pub record Stocked (s : WStore W) (cs : List Bytes) (session : IngestSession) : Type 0 where
    pub backend : BState W
    pub run :
        each (accept W.platform Q) cs (session, s)
        ≡ (ok tt, (session_after W cs session, record s { backend = backend }))
    pub honest : IsHonest W (record s { backend = backend })
    pub kept : (d : Text) → Holds W s d → Holds W (record s { backend = backend }) d
    pub there : All (λ c. Holds W (record s { backend = backend }) (digest W c)) cs

  module _ (s : WStore W) (coded : s.codec ≡ W.codec) (honest : IsHonest W s) (c : Bytes)
      (known : W.Known c) where
    -- One chunk: its blob is there afterwards, and every other stays.
    record PutOne : Type 0 where
      backend : BState W
      run :
          store_chunk W.platform Q (digest W c) c s
          ≡ (ok (is_some (view W s (digest W c))), record s { backend = backend })
      own : Holds W (record s { backend = backend }) (digest W c)
      kept : (d : Text) → Holds W s d → Holds W (record s { backend = backend }) d
      honest_after : IsHonest W (record s { backend = backend })

    put_one : PutOne
    unfolding store_chunk
    put_one =
        let (b, run, own, keeps) = put_blob_lem W s honest c known in
        let here : Holds W (record s { backend = b }) (digest W c) = record {
          content = c;
          known = known;
          digest_lem = refl;
          held = own;
        } in
        record {
          backend = b;
          run = rw (encoded_in W s c coded) run;
          own = here;
          kept = λ d h. elim (Text-discrete d (digest W c)) [
            | yes same ↦ rw same here
            | no differ ↦ (Holds-move W s (record s { backend = b }) d (keeps d differ) h).0
          ];
          honest_after = λ d valid there. elim (Text-discrete d (digest W c)) [
            | yes same ↦ rw same here
            | no differ ↦
                (Holds-move W s (record s { backend = b }) d (keeps d differ)
                  (honest d valid (ap is_some (sym (keeps d differ)) ∙ there))).0
          ];
        }

  pub put_all :
      (cs : List Bytes) (s : WStore W) (session : IngestSession)
      → s.codec ≡ W.codec
      → IsHonest W s
      → All W.Known cs
      → Stocked s cs session
  unfolding each accept
  put_all [] s session coded honest known = record {
    backend = s.backend;
    run = refl;
    honest = honest;
    kept = λ d h. h;
    there = tt;
  }
  put_all (c ∷ cs) s session coded honest known =
      let one = put_one s coded honest c known.0 in
      let rest =
        put_all cs (record s { backend = one.backend }) (with_chunk W session c) coded
          one.honest_after known.1 in
      record {
        backend = rest.backend;
        run = rw one.run rest.run;
        honest = rest.honest;
        kept = λ d h. rest.kept d (one.kept d h);
        there = (rest.kept (digest W c) one.own, rest.there);
      }
