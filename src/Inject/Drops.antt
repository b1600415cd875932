-- ===== src/Inject/Drops.antt =====
-- Which connections inject.py drops.
use browserbench.Prelude.{
  ℕ, ◌+◌, String, ◌≡◌, refl, inl, inr, Bool, true, false, not, ◌&&◌, ◌||◌, Option, none, some, List,
  [], ◌∷◌, ◌++◌, arith, leb, ◌==◌, Option-cases, all,
}
use browserbench.Inject.Upstream.{Bytes, BytesDecoder, UpstreamResult, Classification, committed}
use browserbench.Inject.State.{
  new_proxy, request_accepted, request_finished, count_forward, attempt_receipt, record_attempt,
  record_request, Attempt, AttemptReceipt, Proxy, Treatment, no_treatment,
  connection_dropped_after_commit,
}
use browserbench.Inject.Threads.{
  move, run, Work, Handler, accepted, counted, attempted, forwarding, answered, dropping, closing,
  noted, recorded, finished, Event, dispatch, refuse, open_attempt, read_body, upstream_answers,
  connection_closes, downstream_fails, tick, Step,
}
use browserbench.Inject.Count.{total, run-keeps, IsKept}
use browserbench.Inject.Flight.{one_if, start_of}

abbrev pub is_drop : Treatment → Bool
is_drop connection_dropped_after_commit = true
is_drop _ = false

-- The receipts of dropped connections.
abbrev pub dropped : List AttemptReceipt → ℕ
dropped [] = 0
dropped (r ∷ rs) = one_if (is_drop r.treatment) + dropped rs

-- A connection that is being dropped, and has no receipt yet.
abbrev pub drop : Handler → ℕ
drop (dropping w) = one_if (is_drop w.treatment)
drop (closing w) = one_if (is_drop w.treatment)
drop (noted w) = one_if (is_drop w.treatment)
drop _ = 0

abbrev pub is_untreated : Treatment → Bool
is_untreated no_treatment = true
is_untreated _ = false

abbrev pub is_number : ℕ → Option ℕ → Bool
is_number n none = false
is_number n (some k) = k == n

abbrev pub is_commit : Classification → Bool
is_commit committed = true
is_commit _ = false

-- The n-th commit, as the upstream has verified it.
abbrev pub is_nth_commit : ℕ → Option Attempt → Option UpstreamResult → Bool
is_nth_commit n (some a) (some u) = is_number n a.committed_sequence && is_commit u.classification
is_nth_commit n _ _ = false

abbrev pub is_sound : ℕ → Work → Bool
is_sound n w = not (is_drop w.treatment) || is_nth_commit n w.attempt w.upstream

abbrev pub sound : ℕ → Handler → Bool
sound n (attempted w) = is_untreated w.treatment
sound n (forwarding w) = is_untreated w.treatment
sound n (answered w) = is_untreated w.treatment
sound n (dropping w) = is_sound n w
sound n (closing w) = is_sound n w
sound n (noted w) = is_sound n w
sound n _ = true

abbrev pub sound_receipt : ℕ → AttemptReceipt → Bool
sound_receipt n r =
    not (is_drop r.treatment)
    || is_number n r.attempt.committed_sequence && is_commit r.upstream_classification

dropped-append : (xs ys : List AttemptReceipt) → dropped (xs ++ ys) ≡ dropped xs + dropped ys
dropped-append [] ys = omega arith
dropped-append (x ∷ xs) ys = omega (arith, dropped-append xs ys)

all-append {ℓ} :
    {A : Type ℓ} (p : A → Bool) (xs ys : List A) → all p (xs ++ ys) ≡ (all p xs && all p ys)
all-append p [] ys = refl
all-append p (x ∷ xs) ys = ground (arith, all-append p xs ys)

-- The drops that are due after `count` verified commits.
abbrev pub due : (inject : Bool) (n count : ℕ) → ℕ
due inject n count = one_if (inject && leb n count)

module _ (loads : BytesDecoder) (encode : String → Bytes) (sha256 : Bytes → String)
    (url_path : String → String) (inject : Bool) (n : ℕ) where
  abbrev IsSound : Handler → Type 0
  IsSound h = sound n h ≡ true

  abbrev HasDrops : Proxy → ℕ → Type 0
  HasDrops p k =
      (p.inject_send ≡ inject)
      × (p.inject_after_committed ≡ n)
      × (k + dropped p.attempts ≡ due inject n p.committed_count)
      × (all (sound_receipt n) p.attempts ≡ true)

  recorded-drops :
      (now : ℕ) (w : Work) (a : Attempt) (p : Proxy) (rest : ℕ)
      → IsSound (noted w)
      → w.attempt ≡ some a
      → HasDrops p (drop (noted w) + rest)
      → HasDrops
          (record_attempt loads sha256 now a w.body w.upstream w.treatment w.close_error p)
          rest
  unfolding record_attempt
  recorded-drops now w a p rest q here i =
      let r = attempt_receipt loads sha256 now a w.body w.upstream w.treatment w.close_error in
      ground (
        arith,
        dropped-append p.attempts (r ∷ []),
        all-append (sound_receipt n) p.attempts (r ∷ []),
      )

  noted-drops :
      (now : ℕ) (w : Work) (p : Proxy) (rest : ℕ)
      → IsSound (noted w)
      → HasDrops p (drop (noted w) + rest)
      → IsSound (move loads encode sha256 url_path (tick now) p (noted w)).1
        × HasDrops
            (move loads encode sha256 url_path (tick now) p (noted w)).0
            (drop (move loads encode sha256 url_path (tick now) p (noted w)).1 + rest)
  unfolding move
  noted-drops now w p rest q i = elim (Option-cases w.attempt) [
    | inl e ↦ rw e (ground arith)
    | inr (a, e) ↦ rw e (ground (arith, recorded-drops now w a p rest q e i))
  ]

  drops-moves :
      (e : Event) (p : Proxy) (h : Handler) (rest : ℕ)
      → IsSound h
      → HasDrops p (drop h + rest)
      → IsSound (move loads encode sha256 url_path e p h).1
        × HasDrops
            (move loads encode sha256 url_path e p h).0
            (drop (move loads encode sha256 url_path e p h).1 + rest)
  unfolding move count_forward request_finished record_request
  drops-moves (tick now) p (noted w) rest q i = noted-drops now w p rest q i
  drops-moves (dispatch m s t) p (noted w) rest q i = (q, i)
  drops-moves refuse p (noted w) rest q i = (q, i)
  drops-moves open_attempt p (noted w) rest q i = (q, i)
  drops-moves (read_body b) p (noted w) rest q i = ground arith
  drops-moves (upstream_answers a t) p (noted w) rest q i = ground arith
  drops-moves (connection_closes x) p (noted w) rest q i = (q, i)
  drops-moves downstream_fails p (noted w) rest q i = (q, i)
  drops-moves e p accepted rest q i = ground arith
  drops-moves e p (counted r) rest q i = ground arith
  drops-moves e p (attempted w) rest q i = ground arith
  drops-moves e p (forwarding w) rest q i = ground arith
  drops-moves e p (answered w) rest q i = ground arith
  drops-moves e p (dropping w) rest q i = ground arith
  drops-moves e p (closing w) rest q i = ground arith
  drops-moves e p recorded rest q i = ground arith
  drops-moves e p finished rest q i = ground arith

  drops-IsKept : IsKept loads encode sha256 url_path IsSound drop HasDrops
  unfolding request_accepted
  drops-IsKept = record { moves = drops-moves; accepts = λ p k i. ground arith; accepted_ok = refl }

  -- The receipts and the connections under way that are dropped, of a proxy that has just been made,
  -- after any moves of any number of handlers in any order: one as soon as the commit is counted
  -- that the proxy was told to drop, if it was told to drop any, and none before. A receipt of a
  -- dropped connection has the number of that commit, which the upstream has confirmed.
  pub run-drops_one :
      (path : String) (p : Proxy) (steps : List Step)
      → new_proxy inject n path ≡ some p
      → (total drop (run loads encode sha256 url_path steps (start_of p)).handlers
            + dropped (run loads encode sha256 url_path steps (start_of p)).proxy.attempts
          ≡ due inject n
              (run loads encode sha256 url_path steps (start_of p)).proxy.committed_count)
        × (all
              (sound_receipt n)
              (run loads encode sha256 url_path steps (start_of p)).proxy.attempts
            ≡ true)
  unfolding new_proxy
  run-drops_one path p steps made =
      let begin : HasDrops p 0 = ground arith in
      let (q, i) =
        run-keeps loads encode sha256 url_path IsSound drop HasDrops drops-IsKept steps (start_of p)
          tt begin in
      (i.2, i.3)
