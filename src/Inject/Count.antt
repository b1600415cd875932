-- ===== src/Inject/Count.antt =====
-- Quantities of inject.py that add up over all handlers, kept by every interleaving of their moves.
use mathlib.Core.Path.{subst}
use browserbench.Prelude.{ℕ, zero, suc, ◌+◌, String, List, [], ◌∷◌, arith, All}
use browserbench.Inject.Upstream.{Bytes, BytesDecoder}
use browserbench.Inject.State.{request_accepted, Proxy}
use browserbench.Inject.Threads.{
  move, move_at, step, run, System, Handler, accepted, Event, Step, accept, turn,
}

abbrev pub total : (Handler → ℕ) → List Handler → ℕ
total w [] = 0
total w (h ∷ hs) = w h + total w hs

module _ (loads : BytesDecoder) (encode : String → Bytes) (sha256 : Bytes → String)
    (url_path : String → String) where
  -- What is kept if each move of one handler keeps it, whatever the others weigh together.
  pub record IsKept (Q : Handler → Type 0) (w : Handler → ℕ) (Inv : Proxy → ℕ → Type 0)
      : Type 0 where
    pub moves :
        (e : Event) (p : Proxy) (h : Handler) (rest : ℕ)
        → Q h
        → Inv p (w h + rest)
        → Q (move loads encode sha256 url_path e p h).1
          × Inv
              (move loads encode sha256 url_path e p h).0
              (w (move loads encode sha256 url_path e p h).1 + rest)
    pub accepts : (p : Proxy) (k : ℕ) → Inv p k → Inv (request_accepted p) (w accepted + k)
    pub accepted_ok : Q accepted

  module _ (Q : Handler → Type 0) (w : Handler → ℕ) (Inv : Proxy → ℕ → Type 0)
      (kept : IsKept Q w Inv) where
    move_at-keeps :
        (n : ℕ) (e : Event) (p : Proxy) (hs : List Handler) (rest : ℕ)
        → All Q hs
        → Inv p (total w hs + rest)
        → All Q (move_at loads encode sha256 url_path n e p hs).1
          × Inv
              (move_at loads encode sha256 url_path n e p hs).0
              (total w (move_at loads encode sha256 url_path n e p hs).1 + rest)
    unfolding move_at
    move_at-keeps n e p [] rest q i = (q, i)
    move_at-keeps zero e p (h ∷ hs) rest q i =
        let (q', i') = kept.moves e p h (total w hs + rest) q.0 (subst (Inv p) (omega arith) i) in
        ((q', q.1), subst (Inv (move loads encode sha256 url_path e p h).0) (omega arith) i')
    move_at-keeps (suc n) e p (h ∷ hs) rest q i =
        let (q', i') = move_at-keeps n e p hs (w h + rest) q.1 (subst (Inv p) (omega arith) i) in
        ((q.0, q'), subst (Inv (move_at loads encode sha256 url_path n e p hs).0) (omega arith) i')

    abbrev Holds : System → Type 0
    Holds s = All Q s.handlers × Inv s.proxy (total w s.handlers)

    step-keeps : (x : Step) (s : System) → Holds s → Holds (step loads encode sha256 url_path x s)
    unfolding step
    step-keeps accept s (q, i) =
        ((kept.accepted_ok, q), kept.accepts s.proxy (total w s.handlers) i)
    step-keeps (turn n e) s (q, i) =
        let (q', i') =
          move_at-keeps n e s.proxy s.handlers 0 q (subst (Inv s.proxy) (omega arith) i) in
        (
          q',
          subst (Inv (move_at loads encode sha256 url_path n e s.proxy s.handlers).0) (omega arith)
              i',
        )

    pub run-keeps :
        (steps : List Step) (s : System)
        → All Q s.handlers
        → Inv s.proxy (total w s.handlers)
        → All Q (run loads encode sha256 url_path steps s).handlers
          × Inv
              (run loads encode sha256 url_path steps s).proxy
              (total w (run loads encode sha256 url_path steps s).handlers)
    unfolding run
    run-keeps [] s q i = (q, i)
    run-keeps (x ∷ xs) s q i =
        let (q', i') = step-keeps x s (q, i) in
        run-keeps xs (step loads encode sha256 url_path x s) q' i'
