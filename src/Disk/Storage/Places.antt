-- ===== src/Disk/Storage/Places.antt =====
-- The places of a storage's files: files that do not stand in each other's way can all be written.
use rbitt.Prelude.{
  ℕ, zero, suc, ◌<◌, ◌≡◌, refl, subst, true, false, ◌||◌, some, List, [], ◌∷◌, Bytes, All, arith,
}
use rbitt.Prelude.Same.{same_bytes_refl}
use rbitt.Disk.Files.{Disk, Place, place, same_place, within, apart, write_file}
use rbitt.Disk.Storage.{FileEntry, nth}

-- No file lies where another one lies, nor below or above it.
abbrev pub Distinct : List FileEntry → Type 0
Distinct [] = Unit
Distinct (file ∷ files) =
    All (λ g. apart (place g.path) (place file.path) ≡ true) files × Distinct files

-- Every file can be opened for writing.
abbrev pub CanOpen : List FileEntry → Disk → Type 0
CanOpen files disk = All (λ f. disk.can_open (place f.path) ≡ true) files

pub same_place_refl : (p : Place) → same_place p p ≡ true
unfolding same_place
same_place_refl [] = refl
same_place_refl (name ∷ p) = ground (arith, same_bytes_refl name, same_place_refl p)

within-same_place : (p q : Place) → same_place p q ≡ true → within p q ≡ true
unfolding within
within-same_place p [] e = e
within-same_place p (name ∷ q) e = ground (arith, e)

pub apart-same_place : (p q : Place) → apart p q ≡ true → same_place p q ≡ false
unfolding apart
apart-same_place p q e = ground (arith, e, within-same_place p q)

apart_sym : (p q : Place) → apart p q ≡ true → apart q p ≡ true
unfolding apart
apart_sym p q e = ground (arith, e)

pub nth-All :
    {A : Type 0} (P : A → Type 0) (files : List A) (j : ℕ) (g : A)
    → All P files
    → nth files j ≡ some g
    → P g
unfolding nth
nth-All P [] j g a e = cc
nth-All P (x ∷ files) zero g a e = let same : x ≡ g = cc in subst P same a.0
nth-All P (x ∷ files) (suc j) g a e = nth-All P files j g a.1 e

pub Distinct-nth :
    (files : List FileEntry) (i j : ℕ) (f g : FileEntry)
    → Distinct files
    → i < j
    → nth files i ≡ some f
    → nth files j ≡ some g
    → apart (place g.path) (place f.path) ≡ true
unfolding nth
Distinct-nth [] i j f g d h e k = cc
Distinct-nth (x ∷ files) zero zero f g d h e k = absurd (omega arith)
Distinct-nth (x ∷ files) zero (suc j) f g d h e k =
    let same : x ≡ f = cc in
    subst (λ y. apart (place g.path) (place y.path) ≡ true) same
      (nth-All (λ y. apart (place y.path) (place x.path) ≡ true) files j g d.0 k)
Distinct-nth (x ∷ files) (suc i) zero f g d h e k = absurd (omega arith)
Distinct-nth (x ∷ files) (suc i) (suc j) f g d h e k =
    Distinct-nth files i j f g d.1 (omega arith) e k

rest_open :
    (f : FileEntry) (files : List FileEntry)
    → All (λ g. apart (place g.path) (place f.path) ≡ true) files
    → All
        (λ g.
          (same_place (place f.path) (place g.path) || apart (place f.path) (place g.path)) ≡ true)
        files
rest_open f [] a = tt
rest_open f (g ∷ files) a =
    (ground (arith, apart_sym (place g.path) (place f.path) a.0), rest_open f files a.1)

-- The other files can still be opened when one of them is written.
pub stays_open :
    (files : List FileEntry) (i : ℕ) (f : FileEntry)
    → Distinct files
    → nth files i ≡ some f
    → All
        (λ g.
          (same_place (place f.path) (place g.path) || apart (place f.path) (place g.path)) ≡ true)
        files
unfolding nth
stays_open [] i f d e = cc
stays_open (x ∷ files) zero f d e =
    let same : x ≡ f = cc in
    subst
      (λ y.
        All
          (λ g.
            (same_place (place y.path) (place g.path) || apart (place y.path) (place g.path))
            ≡ true)
          (x ∷ files))
      same (ground (arith, same_place_refl (place x.path)), rest_open x files d.0)
stays_open (x ∷ files) (suc i) f d e = (
  ground (arith, nth-All (λ g. apart (place g.path) (place x.path) ≡ true) files i f d.0 e),
  stays_open files i f d.1 e,
)

pub CanOpen-write_file :
    (files : List FileEntry) (f : FileEntry) (disk : Disk) (content : Bytes)
    → All
        (λ g.
          (same_place (place f.path) (place g.path) || apart (place f.path) (place g.path)) ≡ true)
        files
    → CanOpen files disk
    → CanOpen files (write_file disk (place f.path) content)
unfolding write_file
CanOpen-write_file [] f disk content s o = tt
CanOpen-write_file (g ∷ files) f disk content s o =
    (ground (arith, s.0, o.0), CanOpen-write_file files f disk content s.1 o.1)
