-- ===== src/Store.antt =====
-- The object files of internal/store/json_store.go: each table is a directory with one file for each
-- id. A file holds the value that was encoded into it, since what is read is what was written; which
-- files the operating system refuses to read or write is given by a `Disk`.
pub mod Lookup
pub mod Log
use ops_terminator.Base.{
  ℕ, Bool, true, false, ◌&&◌, List, [], ◌∷◌, ◌++◌, Option, none, some, Result, ok, err, ◌>>=◌, ◌==◌,
  nat_eq, text_eq, ltb, if◌then◌else◌,
}
use ops_terminator.Base.Text.{Text, bytes}

-- Which files can be written, read and removed, by directory and id.
pub record Disk : Type 0 where
  pub writable : Text → Text → Bool
  pub readable : Text → Text → Bool
  pub removable : Text → Text → Bool

-- The errors, with the directory and the id.
pub data StoreError : Type 0 where
  write_failed read_failed delete_failed : Text → Text → StoreError

-- The order of `sort.Strings`.
unfoldable pub text_lt : Text → Text → Bool
text_lt [] [] = false
text_lt [] (_ ∷ _) = true
text_lt (_ ∷ _) [] = false
text_lt (x ∷ xs) (y ∷ ys) = if x == y then text_lt xs ys else ltb x y

-- `filepath.Join(s.root, dir, id+".json")`, within the directory.
abbrev pub file_name : Text → Text
file_name id = id ++ bytes ".json"

-- A directory, its files in the order of their paths.
abbrev pub Table {ℓ} : Type ℓ → Type ℓ
Table A = List (Text × A)

module _ {ℓ} {A : Type ℓ} where
  unfoldable pub lookup : Text → Table A → Option A
  lookup id [] = none
  lookup id ((j, v) ∷ t) = if j == id then some v else lookup id t

  -- `os.WriteFile`: a new file, or the old one with its content replaced.
  unfoldable pub write_file : Text → A → Table A → Table A
  write_file id v [] = (id, v) ∷ []
  write_file id v ((j, w) ∷ t) =
      if j == id
      then (id, v) ∷ t
      else if text_lt (file_name id) (file_name j)
      then (id, v) ∷ (j, w) ∷ t
      else (j, w) ∷ write_file id v t

  -- `os.Remove`.
  unfoldable pub remove_file : Text → Table A → Table A
  remove_file id [] = []
  remove_file id ((j, w) ∷ t) =
      let rest = remove_file id t in if j == id then rest else (j, w) ∷ rest

  -- `saveObject`.
  unfoldable pub save_object : Disk → Text → Text → A → Table A → Result StoreError (Table A)
  save_object d dir id v t =
      if d.writable dir id then ok (write_file id v t) else err (write_failed dir id)

  -- The content of a file that is there.
  unfoldable pub read_file : Disk → Text → Text → Option A → Result StoreError (Option A)
  read_file d dir id none = ok none
  read_file d dir id (some v) = if d.readable dir id then ok (some v) else err (read_failed dir id)

  -- `getObject`; a missing file is no error.
  unfoldable pub get_object : Disk → Text → Text → Table A → Result StoreError (Option A)
  unfolding read_file
  get_object d dir id t = read_file d dir id (lookup id t)

  -- `listObjects`.
  unfoldable pub list_objects : Disk → Text → Table A → Result StoreError (List A)
  list_objects d dir [] = ok []
  list_objects d dir ((id, v) ∷ t) =
      let rest = list_objects d dir t in
      if d.readable dir id then (do vs ← rest; ok (v ∷ vs)) else err (read_failed dir id)

  -- The outcome of `os.Remove` on a file that is there or missing; a missing file is no error.
  unfoldable pub delete_object : Disk → Text → Text → Table A → Result StoreError (Table A)
  delete_object d dir id t = elim (lookup id t) [
    | none ↦ ok t
    | some v ↦ if d.removable dir id then ok (remove_file id t) else err (delete_failed dir id)
  ]
