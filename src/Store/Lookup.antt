-- ===== src/Store/Lookup.antt =====
-- What a read gives after a write or a removal.
use ops_terminator.Base.{
  true, [], ◌∷◌, none, some, ok, ◌≡◌, refl, arith, ◌==◌, text_eq, ==_iff, inl, inr, Bool-cases,
  subst, if◌then◌else◌,
}
use ops_terminator.Base.Text.{Text}
use ops_terminator.Store.{
  Disk, Table, lookup, write_file, remove_file, text_lt, file_name, read_file, save_object,
  get_object,
}
use mathlib.Core.Option.{some-injective}

module _ {ℓ} {A : Type ℓ} where
  pub lookup-write_file :
      (id j : Text) (v : A) (t : Table A)
      → lookup j (write_file id v t) ≡ (if id == j then some v else lookup j t)
  unfolding lookup write_file
  lookup-write_file id j v [] = refl
  lookup-write_file id j v ((i, w) ∷ t) =
      ground (arith, ==_iff id j, ==_iff i id, ==_iff i j, lookup-write_file id j v t)

  pub lookup-remove_file :
      (id j : Text) (t : Table A)
      → lookup j (remove_file id t) ≡ (if id == j then none else lookup j t)
  unfolding lookup remove_file
  lookup-remove_file id j [] = ground arith
  lookup-remove_file id j ((i, w) ∷ t) =
      ground (arith, ==_iff id j, ==_iff i id, ==_iff i j, lookup-remove_file id j t)

-- A property of every stored value.
abbrev pub AllFiles {ℓ κ} : {A : Type ℓ} → (A → Type κ) → Table A → Type κ
AllFiles P [] = Unit
AllFiles P ((_, v) ∷ t) = P v × AllFiles P t

pub AllFiles-write_file {ℓ κ} :
    {A : Type ℓ} (P : A → Type κ) (id : Text) (v : A) (t : Table A)
    → P v
    → AllFiles P t
    → AllFiles P (write_file id v t)
unfolding write_file
AllFiles-write_file P id v [] h k = (h, tt)
AllFiles-write_file P id v ((j, w) ∷ t) h k = elim (Bool-cases (j == id)) [
  | inl e ↦ rw e (h, k.1)
  | inr e ↦ elim (Bool-cases (text_lt (file_name id) (file_name j))) [
    | inl f ↦ rw (e, f) (h, k)
    | inr f ↦ rw (e, f) (k.0, AllFiles-write_file P id v t h k.1)
  ]
]

pub AllFiles-lookup {ℓ κ} :
    {A : Type ℓ} (P : A → Type κ) (id : Text) (t : Table A) {v : A}
    → AllFiles P t
    → lookup id t ≡ some v
    → P v
unfolding lookup
AllFiles-lookup P id [] h e = cc
AllFiles-lookup P id ((j, w) ∷ t) h e = elim (Bool-cases (j == id)) [
  | inl f ↦ subst P (some-injective w _ (rw f at e)) h.0
  | inr f ↦ AllFiles-lookup P id t h.1 (rw f at e)
]

module _ {ℓ} {A : Type ℓ} where
  -- A save that succeeds has written the file.
  pub save_object-eq-ok :
      (d : Disk) (dir id : Text) (v : A) (t : Table A) {t' : Table A}
      → save_object d dir id v t ≡ ok t'
      → t' ≡ write_file id v t
  unfolding save_object
  save_object-eq-ok d dir id v t h = ground arith

  -- A read that finds a value has read the file.
  pub get_object-eq-some :
      (d : Disk) (dir id : Text) (t : Table A) {v : A}
      → get_object d dir id t ≡ ok (some v)
      → (lookup id t ≡ some v) × (d.readable dir id ≡ true)
  unfolding get_object
  get_object-eq-some d dir id t h = ground arith

  pub get_object_lem :
      (d : Disk) (dir id : Text) (t : Table A) {v : A}
      → lookup id t ≡ some v
      → d.readable dir id ≡ true
      → get_object d dir id t ≡ ok (some v)
  unfolding get_object
  get_object_lem d dir id t h r = rw (h, read_file) (rw r)
