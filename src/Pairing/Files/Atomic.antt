-- ===== src/Pairing/Files/Atomic.antt =====
-- A file is replaced as a whole or not at all.
use otherhost.Base.{
  ℕ, ◌≡◌, ◌≢◌, inl, inr, refl, sym, ap, Bool, true, false, [], Option, none, some, arith, Bytes,
  bytes_eq_iff, bytes_eq_refl, find, delete, find-delete, find-insert, insert, Bool-cases,
}
use otherhost.Pairing.Install.{written}
use otherhost.Pairing.Files.{
  Disk, FileFault, StoredFile, WriteOutcomes, after_write, clean_up, fill_temporary, new_file,
  with_temporary, write_atomic,
}

-- The file is the new one if there was no fault, and the old one if there was.
abbrev pub IsWhole : Bytes → StoredFile → Disk → Disk × Option FileFault → Type 0
IsWhole path new before (after, none) = find path after ≡ some new
IsWhole path new before (after, some fault) = find path after ≡ find path before

-- Each other file, except the temporary one, is as it was.
abbrev KeepsOthers : Bytes → Bytes → Disk → Disk → Type 0
KeepsOthers path temp before after =
    (q : Bytes) → q ≢ path → q ≢ temp → find q after ≡ find q before

module _ (temp path : Bytes) (new : StoredFile) (before : Disk) (d : path ≢ temp) where
  IsWhole-clean_up :
      (b : Bool) (r : Disk × Option FileFault)
      → IsWhole path new before r
      → IsWhole path new before (clean_up b temp r)
  IsWhole-clean_up false (after, none) h = h
  IsWhole-clean_up false (after, some fault) h = h
  IsWhole-clean_up true (after, none) h =
      ground (arith, find-delete temp path after, bytes_eq_iff temp path)
  IsWhole-clean_up true (after, some fault) h =
      ground (arith, find-delete temp path after, bytes_eq_iff temp path)

  KeepsOthers-clean_up :
      (b : Bool) (r : Disk × Option FileFault)
      → KeepsOthers path temp before r.0
      → KeepsOthers path temp before (clean_up b temp r).0
  KeepsOthers-clean_up false r h = h
  KeepsOthers-clean_up true (after, fault) h =
      λ q p t. ground (arith, h q p t, find-delete temp q after, bytes_eq_iff temp q)

  find-temporary :
      (q : Bytes) (file : StoredFile) → q ≢ temp → find q (insert temp file before) ≡ find q before
  find-temporary q file t = ground (arith, find-insert temp q file before, bytes_eq_iff temp q)

module _ (temp path : Bytes) (mode : ℕ) (before : Disk) (io : WriteOutcomes) (d : path ≢ temp) where
  after_write-IsWhole :
      (w : Bytes × Bool)
      → IsWhole path (new_file w.0 mode) before (after_write io temp path mode before w)
  after_write-IsWhole (text, false) =
      find-temporary temp path (new_file text mode) before d path _ d
  after_write-IsWhole (text, true) =
      let full = insert temp (new_file text mode) before in
      ground (
        arith,
        find-insert temp path (new_file text mode) before,
        find-insert path path (new_file text mode) (delete temp full),
        bytes_eq_iff temp path,
        bytes_eq_refl path,
      )

  after_write-KeepsOthers :
      (w : Bytes × Bool) → KeepsOthers path temp before (after_write io temp path mode before w).0
  after_write-KeepsOthers (text, false) =
      λ q p t. find-temporary temp path (new_file text mode) before d q _ t
  after_write-KeepsOthers (text, true) = λ q p t.
      let full = insert temp (new_file text mode) before in
      ground (
        arith,
        find-insert temp q (new_file text mode) before,
        find-insert path q (new_file text mode) (delete temp full),
        find-delete temp q full,
        bytes_eq_iff temp q,
        bytes_eq_iff path q,
      )

  -- A write that ends without an error has written everything.
  written-IsWhole :
      (content : Bytes) (o : Option ℕ)
      → IsWhole path
          (new_file content mode)
          before
          (after_write io temp path mode before (written [] content o))
  written-IsWhole content none = after_write-IsWhole (content, true)
  written-IsWhole content (some n) = after_write-IsWhole (_, false)

  fill_temporary-IsWhole :
      (content : Bytes)
      → IsWhole path
          (new_file content mode)
          before
          (fill_temporary io temp path content mode before)
  unfolding fill_temporary
  fill_temporary-IsWhole content = elim (Bool-cases io.changes_mode) [
    | inl e ↦ rw e (written-IsWhole content io.write)
    | inr e ↦ rw e (find-temporary temp path (new_file content mode) before d path _ d)
  ]

  fill_temporary-KeepsOthers :
      (content : Bytes)
      → KeepsOthers path temp before (fill_temporary io temp path content mode before).0
  unfolding fill_temporary
  fill_temporary-KeepsOthers content = elim (Bool-cases io.changes_mode) [
    | inl e ↦ rw e (after_write-KeepsOthers (written [] content io.write))
    | inr e ↦ rw e (λ q p t. find-temporary temp path (new_file content mode) before d q _ t)
  ]

-- The temporary file, if one is made, is new: `os.CreateTemp` makes it exclusively.
abbrev pub IsNew : Bytes → Disk → Option Bytes → Type 0
IsNew path before none = Unit {0}
IsNew path before (some temp) = (path ≢ temp) × (find temp before ≡ none)

-- Behind its removal the temporary file is gone.
abbrev pub IsGone : Bool → Option Bytes → Disk → Type 0
IsGone removes none after = Unit {0}
IsGone false (some temp) after = Unit {0}
IsGone true (some temp) after = find temp after ≡ none

IsGone-clean_up :
    (b : Bool) (temp : Bytes) (r : Disk × Option FileFault)
    → IsGone b (some temp) (clean_up b temp r).0
IsGone-clean_up false temp r = tt
IsGone-clean_up true temp (after, fault) =
    ground (arith, find-delete temp temp after, bytes_eq_refl temp)

-- The temporary file, if one is made, has another name than the file.
abbrev pub IsApart : Bytes → Option Bytes → Type 0
IsApart path none = Unit {0}
IsApart path (some temp) = path ≢ temp

IsNew-IsApart :
    (path : Bytes) (before : Disk) (t : Option Bytes) → IsNew path before t → IsApart path t
IsNew-IsApart path before none n = tt
IsNew-IsApart path before (some temp) n = n.0

IsGone-before :
    (b : Bool) (path : Bytes) (t : Option Bytes) (before : Disk)
    → IsNew path before t
    → IsGone b t before
IsGone-before b path none before d = tt
IsGone-before true path (some temp) before d = d.1
IsGone-before false path (some temp) before d = tt

module _ (io : WriteOutcomes) (path content : Bytes) (mode : ℕ) (before : Disk) (q : Bytes) where
  with_temporary-IsWhole :
      (t : Option Bytes)
      → IsApart path t
      → q ≢ path
      → t ≢ some q
      → IsWhole path (new_file content mode) before (with_temporary io path content mode before t)
        × (find q (with_temporary io path content mode before t).0 ≡ find q before)
        × IsGone io.removes t (with_temporary io path content mode before t).0
  with_temporary-IsWhole none d p o = (refl, refl, tt)
  with_temporary-IsWhole (some temp) d p o =
      let filled = fill_temporary io temp path content mode before in
      let others = fill_temporary-KeepsOthers temp path mode before io d content in
      (
        IsWhole-clean_up temp path (new_file content mode) before d io.removes filled
            (fill_temporary-IsWhole temp path mode before io d content),
        KeepsOthers-clean_up temp path (new_file content mode) before d io.removes filled others q p
            (λ e. o (ap some (sym e))),
        IsGone-clean_up io.removes temp filled,
      )

-- Whether or not the temporary file is new.
pub write_atomic-apart :
    (io : WriteOutcomes) (path content : Bytes) (mode : ℕ) (before : Disk) (q : Bytes)
    → IsApart path io.temporary
    → q ≢ path
    → io.temporary ≢ some q
    → IsWhole path (new_file content mode) before (write_atomic io path content mode before)
      × (find q (write_atomic io path content mode before).0 ≡ find q before)
unfolding write_atomic fill_temporary
write_atomic-apart io path content mode before q d p o = elim (Bool-cases io.makes_directory) [
  | inl e ↦
      let (w, k, g) = with_temporary-IsWhole io path content mode before q io.temporary d p o in
      rw e (w, k)
  | inr e ↦ rw e (refl, refl)
]

-- However the system calls of `writeAtomic` end, with a temporary file that is new: after success the file
-- holds exactly the content, with the mode; after a fault it is the file it was, or absent if it was
-- absent. No other file changes but the temporary one, which is gone if its removal happens. Where the
-- removal does not happen, the faults also describe a process that is stopped between two calls.
pub write_atomic-IsWhole :
    (io : WriteOutcomes) (path content : Bytes) (mode : ℕ) (before : Disk) (q : Bytes)
    → IsNew path before io.temporary
    → q ≢ path
    → io.temporary ≢ some q
    → IsWhole path (new_file content mode) before (write_atomic io path content mode before)
      × (find q (write_atomic io path content mode before).0 ≡ find q before)
      × IsGone io.removes io.temporary (write_atomic io path content mode before).0
unfolding write_atomic fill_temporary
write_atomic-IsWhole io path content mode before q d p o = elim (Bool-cases io.makes_directory) [
  | inl e ↦ rw e (
      with_temporary-IsWhole io path content mode before q io.temporary
        (IsNew-IsApart path before io.temporary d) p o)
  | inr e ↦ rw e (refl, refl, IsGone-before io.removes path io.temporary before d)
]
