-- ===== src/Publication/Complete.antt =====
-- The calls of a publication in turn: whichever fails, the rollback leaves the folders as they were,
-- up to one artifact; if none fails, all is in place.
use browserbench.Prelude.{String, ◌≡◌, true, false, List, [], ◌∷◌, ◌++◌, str_eq, All}
use browserbench.Publication.Commit.{
  contains, remove, with_artifacts, with_root, temporaries, targets, Folders, Publication, Log,
  Call,
}
use browserbench.Publication.Names.{without}
use browserbench.Publication.Rollback.{EndsWell, IsClean, IsEarly}

abbrev made_log : Publication → Log → Log
made_log p l =
    with_root (l.folders.root ++ p.receipt_temp ∷ []) (record l { receipt_temp_made = true })

abbrev linked_log : Publication → Log → Log
linked_log p l =
    with_root (l.folders.root ++ p.receipt_target ∷ []) (record l { receipt_committed = true })

module _ (p : Publication) (old : Folders) where
  abbrev Well : List Call → Log → Type 0
  Well cs l = EndsWell p old cs l

  module _ (l : Log) (c : IsClean p old l) (e : IsEarly p old l) where
    abbrev root : List String
    root = l.folders.root

    abbrev dropped_log : Log
    dropped_log =
        with_root (remove p.receipt_temp (linked_log p (made_log p l)).folders.root)
          (linked_log p (made_log p l))

  -- An artifact of this publication: its temporary is no target.
  abbrev pub IsOwn : String × String → Type 0
  IsOwn a =
      (contains a.0 (temporaries p) ≡ true)
      × All (λ t. str_eq t a.0 ≡ false) (targets p)
      × (contains a.1 (targets p) ≡ true)

  -- One round of the loop, from a clean log to a clean log.
  module _ (n t : String) (cs : List Call) (l : Log) (rest : List String) (c : IsClean p old l)
      (e : IsEarly p old l) (own : IsOwn (n, t)) (split : l.committed ++ t ∷ rest ≡ targets p)
      (continue : (next : Log)
        → IsClean p old next
        → IsEarly p old next
        → next.committed ++ rest ≡ targets p
        → Well cs next) where
    abbrev target_log : Log
    target_log = with_artifacts (l.folders.artifacts ++ t ∷ []) l

    abbrev noted_log : Log
    noted_log = record target_log { committed = l.committed ++ t ∷ [] }

    abbrev round_log : Log
    round_log = with_artifacts (remove n noted_log.folders.artifacts) noted_log

  -- The artifacts of the folder are the old ones and the temporaries of this publication.
  pub record IsPrepared (f : Folders) : Type 0 where
    pub same_root : f.root ≡ old.root
    pub temporaries_added : without (temporaries p) f.artifacts ≡ old.artifacts
    pub own : All IsOwn p.artifacts
