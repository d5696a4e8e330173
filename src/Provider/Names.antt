-- ===== src/Provider/Names.antt =====
-- The order of the files of an inbox (`ioutil.ReadDir` lists them by name).
use loopix_messaging.Prelude.{
  ◌≡◌, refl, [], ◌∷◌, true, false, some, Bytes, equal, equal_iff, if◌then◌else◌, arith, Bool-cases,
  inl, inr,
}
use loopix_messaging.Prelude.Maps.{lookup, remove, bytes_key}
use loopix_messaging.Provider.Inboxes.{Directory, name_lt, write_file}

name_lt_irrefl : (x : Bytes) → name_lt x x ≡ false
unfolding name_lt
name_lt_irrefl [] = refl
name_lt_irrefl (x ∷ xs) = ground (arith, name_lt_irrefl xs)

name_lt_trans : (x y z : Bytes) → name_lt x y ≡ true → name_lt y z ≡ true → name_lt x z ≡ true
unfolding name_lt
name_lt_trans [] [] z p q = cc
name_lt_trans [] (y ∷ ys) [] p q = cc
name_lt_trans [] (y ∷ ys) (z ∷ zs) p q = refl
name_lt_trans (x ∷ xs) [] z p q = cc
name_lt_trans (x ∷ xs) (y ∷ ys) [] p q = cc
name_lt_trans (x ∷ xs) (y ∷ ys) (z ∷ zs) p q = ground (arith, name_lt_trans xs ys zs)

name_lt_total : (x y : Bytes) → equal x y ≡ false → name_lt y x ≡ false → name_lt x y ≡ true
unfolding name_lt equal
name_lt_total [] [] p q = cc
name_lt_total [] (y ∷ ys) p q = refl
name_lt_total (x ∷ xs) [] p q = cc
name_lt_total (x ∷ xs) (y ∷ ys) p q = ground (arith, name_lt_total xs ys)

-- The name comes before every name of the directory.
abbrev pub Before : Bytes → Directory → Type 0
Before n [] = Unit {0}
Before n ((m, c) ∷ d) = (name_lt n m ≡ true) × Before n d

-- The names of a directory stand in their order, each once.
abbrev pub IsSorted : Directory → Type 0
IsSorted [] = Unit {0}
IsSorted ((n, c) ∷ d) = Before n d × IsSorted d

Before-weaken : (n m : Bytes) (d : Directory) → name_lt n m ≡ true → Before m d → Before n d
Before-weaken n m [] p h = tt
Before-weaken n m ((k, c) ∷ d) p h = (name_lt_trans n m k p h.0, Before-weaken n m d p h.1)

-- A name before all others is not removed from among them.
remove-Before : (n : Bytes) (d : Directory) → Before n d → remove n d ≡ d
unfolding remove
remove-Before n [] h = refl
remove-Before n ((m, c) ∷ d) h =
    ground (arith, remove-Before n d h.1, equal_iff m n, name_lt_irrefl n)

-- The first file of a directory in order is removed alone.
pub remove-first : (n c : Bytes) (d : Directory) → IsSorted ((n, c) ∷ d) → remove n ((n, c) ∷ d) ≡ d
unfolding remove
remove-first n c d h = rw ((equal_iff n n).1 refl) (remove-Before n d h.0)

Before-write_file :
    (k n content : Bytes) (d : Directory)
    → name_lt k n ≡ true
    → Before k d
    → Before k (write_file n content d)
unfolding write_file
Before-write_file k n content [] p h = (p, tt)
Before-write_file k n content ((m, c) ∷ d) p h = elim (Bool-cases (equal m n)) [
  | inl same ↦ rw (same, write_file) (p, h.1)
  | inr other ↦
      rw (other, write_file)
        (elim (Bool-cases (name_lt n m)) [
          | inl first ↦ rw first (p, h)
          | inr later ↦ rw later (h.0, Before-write_file k n content d p h.1)
        ])
]

-- Writing a file keeps a directory in order.
pub write_file-IsSorted :
    (n content : Bytes) (d : Directory) → IsSorted d → IsSorted (write_file n content d)
unfolding write_file
write_file-IsSorted n content [] h = (tt, tt)
write_file-IsSorted n content ((m, c) ∷ d) h = elim (Bool-cases (equal m n)) [
  | inl same ↦ rw (same, write_file) (rw ((equal_iff m n).0 same) at h)
  | inr other ↦
      rw (other, write_file)
        (elim (Bool-cases (name_lt n m)) [
          | inl first ↦ rw first ((first, Before-weaken n m d first h.0), h)
          | inr later ↦ rw later (
            Before-write_file m n content d (name_lt_total m n other later) h.0,
            write_file-IsSorted n content d h.1,
          )
        ])
]

-- The file that was written holds the content, and the others are as they were.
pub lookup-write_file :
    (k n content : Bytes) (d : Directory)
    → lookup k (write_file n content d) ≡ (if equal n k then some content else lookup k d)
unfolding write_file lookup
lookup-write_file k n content [] = refl
lookup-write_file k n content ((m, c) ∷ d) =
    ground (arith, equal_iff m n, equal_iff m k, equal_iff n k, lookup-write_file k n content d)
