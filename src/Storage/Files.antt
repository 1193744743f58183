-- ===== src/Storage/Files.antt =====
-- The files of internal/storage/storage.go and atomicWrite. The calls of the package os are steps. A
-- fault, an error or a crash, lets some of them happen whole, and if the next one is a write, some of
-- its bytes too.
use Prim.Native.String.{◌++◌ as concat}
use quorum_log.Prelude.{
  ℕ, zero, suc, String, ◌≡◌, ◌≢◌, refl, ◌⊎◌, inl, inr, false, Option, none, some, List, [], ◌∷◌,
  ◌++◌, take, ◌==◌, string_eq, beq_refl, beq_of_ne, sym, subst,
}
use quorum_log.Prelude.GoMap
use quorum_log.Prelude.GoMap.{GoMap}

-- The contents of the files of the node's directory.
abbrev pub Directory : Type 0
Directory = GoMap String (List ℕ)

pub data FileStep : Type 0 where
  -- os.OpenFile with O_TRUNC
  create : String → FileStep
  -- a write to the end of the file
  write : String → List ℕ → FileStep
  sync : String → FileStep
  rename : String → String → FileStep
  -- os.OpenFile with O_APPEND
  open_append : String → FileStep

unfoldable pub perform : FileStep → Directory → Directory
perform (create name) d = GoMap.put d name []
perform (write name bytes) d = GoMap.put d name (GoMap.get_or d name [] ++ bytes)
perform (sync name) d = d
perform (rename from to) d = GoMap.put (GoMap.delete d from) to (GoMap.get_or d from [])
perform (open_append name) d = GoMap.put d name (GoMap.get_or d name [])

-- What a step that fails leaves.
unfoldable pub break_off : ℕ → FileStep → Directory → Directory
unfolding perform
break_off partial (create name) d = d
break_off partial (write name bytes) d = perform (write name (take partial bytes)) d
break_off partial (sync name) d = d
break_off partial (rename from to) d = d
break_off partial (open_append name) d = d

-- The steps up to the fault, which comes after so many: the files, and if all steps were made, how
-- many more are possible.
abbrev pub attempt : ℕ → ℕ → List FileStep → Directory → Directory × Option ℕ
attempt after partial [] d = (d, some after)
attempt zero partial (step ∷ steps) d = (break_off partial step d, none)
attempt (suc n) partial (step ∷ steps) d = attempt n partial steps (perform step d)

-- atomicWrite
abbrev pub tmp : String → String
tmp path = concat path ".tmp"

abbrev pub atomic_write : String → List ℕ → List FileStep
atomic_write path bytes =
    create (tmp path) ∷ write (tmp path) bytes ∷ sync (tmp path) ∷ rename (tmp path) path ∷ []

-- The files beside one and its temporary file.
abbrev pub SameBeside : String → Directory → Directory → Type 0
SameBeside path d d' =
    (name : String) → name ≢ path → name ≢ tmp path → GoMap.get d' name ≡ GoMap.get d name

module _ (path : String) (bytes : List ℕ) (apart : (tmp path == path) ≡ false) where
  pub same_beside :
      (after partial : ℕ) (d : Directory)
      → SameBeside path d (attempt after partial (atomic_write path bytes) d).0
  unfolding perform break_off
  same_beside after partial d name e t =
      beside after (beq_of_ne (λ q. e (sym q))) (beq_of_ne (λ q. t (sym q)))
    where
      beside :
          (n : ℕ)
          → (path == name) ≡ false
          → (tmp path == name) ≡ false
          → GoMap.get (attempt n partial (atomic_write path bytes) d).0 name ≡ GoMap.get d name
      beside zero p q = refl
      beside (suc zero) p q = simp (GoMap.map_laws, q)
      beside (suc (suc zero)) p q = simp (GoMap.map_laws, q)
      beside (suc (suc (suc zero))) p q = simp (GoMap.map_laws, q)
      beside (suc (suc (suc (suc n)))) p q = simp (GoMap.map_laws, p, q)

  -- After a fault the file has its old contents or the new ones.
  pub atomic_write_fault :
      (after partial : ℕ) (d : Directory)
      → (GoMap.get (attempt after partial (atomic_write path bytes) d).0 path ≡ GoMap.get d path)
        ⊎ (GoMap.get (attempt after partial (atomic_write path bytes) d).0 path ≡ some bytes)
  unfolding perform break_off
  atomic_write_fault zero partial d = inl refl
  atomic_write_fault (suc zero) partial d = inl (simp (GoMap.map_laws, apart))
  atomic_write_fault (suc (suc zero)) partial d = inl (simp (GoMap.map_laws, apart))
  atomic_write_fault (suc (suc (suc zero))) partial d = inl (simp (GoMap.map_laws, apart))
  atomic_write_fault (suc (suc (suc (suc n)))) partial d = inr (simp (GoMap.map_laws, beq_refl))

  pub atomic_write_done :
      (after partial : ℕ) (d : Directory) {d' : Directory} {left : ℕ}
      → attempt after partial (atomic_write path bytes) d ≡ (d', some left)
      → GoMap.get d' path ≡ some bytes
  unfolding perform break_off
  atomic_write_done zero partial d h = absurd (cc h)
  atomic_write_done (suc zero) partial d h = absurd (cc h)
  atomic_write_done (suc (suc zero)) partial d h = absurd (cc h)
  atomic_write_done (suc (suc (suc zero))) partial d h = absurd (cc h)
  atomic_write_done (suc (suc (suc (suc n)))) partial d h =
      subst (λ x. GoMap.get x.0 path ≡ some bytes) h (simp (GoMap.map_laws, beq_refl))
