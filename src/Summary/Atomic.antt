-- ===== src/Summary/Atomic.antt =====
-- What `write_summaries` leaves, whichever of its calls raise.
use browserbench.Prelude.{String, ◌≡◌, ◌⊎◌, Option, none, some, List}
use browserbench.Json.{Value, Fields, PyError, receipt_error, Py, ok, raise}
use browserbench.Manifest.{is_given}
use browserbench.Summary.Pair.{
  calls_of_try, handled, fresh_target, try_calls, Place, Target, Pair, Node, regular_file, listed,
  Call,
}

abbrev pub standing : Option Node → Place
standing f = record { file = f; backup = none }

-- The two targets after the exception or the return: both new, or both as before, or, where both had a
-- file and the removal of the second backup has raised, the CSV file and its backup gone.
pub Settled : (c m : String) (csv markdown : Place) → Py (Unit {0}) × Place × Place → Type 0
Settled c m csv markdown done =
    (done ≡ (ok tt, standing (some (regular_file c)), standing (some (regular_file m))))
    ⊎ ((e : PyError) × (done ≡ (raise e, csv, markdown)))
    ⊎ ((old : String) × (other : String) × (csv ≡ standing (some (regular_file old)))
        × (markdown ≡ standing (some (regular_file other)))
        × (done ≡ (
          raise receipt_error,
          standing none,
          record { file = some (regular_file m); backup = some (regular_file other) },
        )))

abbrev pub node_of : Option String → Option Node
node_of none = none
node_of (some s) = some (regular_file s)

-- A target that is listed, with its former content as the backup.
abbrev backed : Option Node → Option String → Target
backed f x = record { place = record { file = f; backup = node_of x }; entry = listed (is_given x) }

module _ (column : String → Option (List (Option String))) (declared : String → List String)
    (raises : Call → Option PyError) (expected c m : String) where
  abbrev ends : Py (Unit {0}) × Pair → Py (Unit {0}) × Place × Place
  ends x = let done = handled x in (done.0, done.1.csv.place, done.1.markdown.place)

  unfoldable Q : Option Node → Option Node → Py (Unit {0}) × Pair → Type 0
  unfolding Settled
  Q f g x = Settled c m (standing f) (standing g) (ends x)

module _ (column : String → Option (List (Option String))) (declared : String → List String)
    (sha256 : Value → String) (raises : Call → Option PyError) (document : Fields)
    (c m : String) where
  abbrev written : Py String → Place → Place → Py (Unit {0}) × Place × Place
  written r csv markdown = elim r [
    | raise e ↦ (raise e, csv, markdown)
    | ok expected ↦
        let done = handled (
          try_calls column declared raises expected c m calls_of_try
            (record { csv = fresh_target csv; markdown = fresh_target markdown })) in
        (done.0, done.1.csv.place, done.1.markdown.place)
  ]
