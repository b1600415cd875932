-- ===== src/Summary/Binding.antt =====
-- How a summary, its CSV file and its Markdown file declare the digest of the summary.
use browserbench.Prelude.{
  String, ◌≡◌, refl, Bool, true, false, Option, none, some, List, [], ◌∷◌, arith, str_eq, eq_iff,
  if◌then◌else◌, all,
}
use browserbench.Json.{◌>>=◌, require, is_str, Value, obj, Fields, receipt_error, Py, ok, item_of}
use browserbench.Study.{is_sha256, cells}
use browserbench.Manifest.{popped}

-- A cell of the column summary_sha256 that is a digest.
unfoldable pub digest_cell : Option String → Option String
unfolding is_sha256
digest_cell none = none
digest_cell (some s) = if is_sha256 s then some s else none

abbrev same_cell : Option String → Option String → Bool
same_cell none none = true
same_cell (some s) (some t) = str_eq s t
same_cell _ _ = false

-- _csv_summary_hash, of the column that csv.DictReader reads
unfoldable pub csv_summary_hash : Option (List (Option String)) → Option String
unfolding digest_cell
csv_summary_hash none = none
csv_summary_hash (some []) = none
csv_summary_hash (some (cell ∷ cells)) =
    if all (same_cell cell) cells then digest_cell cell else none

-- The loop of `_csv_summary_hash_file` once a row is read.
unfoldable pub csv_rest : (expected : String) → List (Option String) → Option String
unfolding digest_cell
csv_rest expected [] = some expected
csv_rest expected (cell ∷ cells) =
    let rest = csv_rest expected cells in
    elim (digest_cell cell) [ none ↦ none | some s ↦ if str_eq s expected then rest else none ]

-- _csv_summary_hash_file
unfoldable pub csv_summary_hash_file : Option (List (Option String)) → Option String
unfolding digest_cell csv_rest
csv_summary_hash_file none = none
csv_summary_hash_file (some []) = none
csv_summary_hash_file (some (cell ∷ cells)) = elim (digest_cell cell) [
  | none ↦ none
  | some s ↦ csv_rest s cells
]

-- The two matches of a Markdown file, over the digests that its lines declare.
unfoldable pub markdown_summary_hash : List String → Option String
markdown_summary_hash (s ∷ []) = some s
markdown_summary_hash _ = none

-- _summary_hash
unfoldable pub summary_hash : (sha256 : Value → String) → Fields → Py String
unfolding item_of popped is_str
summary_hash sha256 document =
    let computed = sha256 (obj (popped "summary_sha256" document)) in
    require (is_str (item_of "summary_sha256" document) computed) receipt_error >>= λ _. ok computed

csv_rest-same :
    (e : String) (cells : List (Option String))
    → is_sha256 e ≡ true
    → csv_rest e cells ≡ (if all (same_cell (some e)) cells then some e else none)
unfolding csv_rest digest_cell
csv_rest-same e [] h = refl
csv_rest-same e (none ∷ cells) h = refl
csv_rest-same e (some s ∷ cells) h = ground (arith, csv_rest-same e cells, eq_iff s e, eq_iff e s)

-- Reading a CSV file row by row finds the digest that reading it whole finds.
pub csv_summary_hash_file-eq :
    (column : Option (List (Option String)))
    → csv_summary_hash_file column ≡ csv_summary_hash column
unfolding csv_summary_hash_file csv_summary_hash digest_cell
csv_summary_hash_file-eq none = refl
csv_summary_hash_file-eq (some []) = refl
csv_summary_hash_file-eq (some (none ∷ cells)) = ground arith
csv_summary_hash_file-eq (some (some s ∷ cells)) = ground (arith, csv_rest-same s cells)
