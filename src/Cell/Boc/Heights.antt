-- ===== src/Cell/Boc/Heights.antt =====
-- The heights that `validate_cells` keeps (crates/ton-connect-core/src/cell_boc.rs): a cell's height is
-- final once the loop has reached it, and each of its references is higher.
use Prim.Native.Nat.{max}
use wallet_engine.Base.{
  ℕ, zero, suc, ◌+◌, ◌≤◌, ◌<◌, ◌≡◌, refl, subst, inl, inr, some, List, [], ◌∷◌, arith, get_elem?,
  get_elem?-set, get_elem?-of-set, set, leb, ◌||◌, not,
}
use wallet_engine.Base.Results.{ok, ok_or->>=, guard->>}
use wallet_engine.Cell.Reader.{BocReader, unsigned}
use wallet_engine.Cell.Boc.{child_height, validate_references}
use wallet_engine.Cell.Boc.Rows.{read_references}

-- From `hs` to `hs'` no height falls, and those below `limit` stay.
abbrev pub Grows : ℕ → List ℕ → List ℕ → Type 0
Grows limit hs hs' =
    (j v : ℕ)
    → get_elem? hs j ≡ some v
    → (v' : ℕ) × (get_elem? hs' j ≡ some v') × (v ≤ v') × (j < limit → v' ≡ v)

abbrev pub Capped : List ℕ → Type 0
Capped hs = (j v : ℕ) → get_elem? hs j ≡ some v → v ≤ 1024

-- The reference `j` of the cell at `index`, whose height is `height`.
abbrev pub IsHigher : ℕ → ℕ → ℕ → List ℕ → ℕ → Type 0
IsHigher cells index height hs j =
    (index < j) × (j < cells) × ((v : ℕ) × (get_elem? hs j ≡ some v) × (height < v))

pub Grows-refl : (limit : ℕ) (hs : List ℕ) → Grows limit hs hs
Grows-refl limit hs j v h = (v, h, omega arith, λ _. refl)

pub Grows-trans :
    (limit more : ℕ) (a b c : List ℕ)
    → limit ≤ more
    → Grows limit a b
    → Grows more b c
    → Grows limit a c
Grows-trans limit more a b c le p q j v h =
    let (v1, at1, up1, same1) = p j v h in
    let (v2, at2, up2, same2) = q j v1 at1 in
    (v2, at2, omega (arith, up1, up2), λ lt. omega (arith, same1 lt, same2 (omega arith)))

child-step :
    (height child : ℕ) → child_height height ≡ some child → (child ≡ height + 1) × (child ≤ 1024)
unfolding child_height
child-step height child h = ground arith

Grows-set :
    (index reference child slot : ℕ) (hs : List ℕ)
    → index < reference
    → get_elem? hs reference ≡ some slot
    → Grows (index + 1) hs (set hs reference (max slot child))
Grows-set index reference child slot hs lt at j v h =
    elim (get_elem?-set hs reference j (max slot child) h) [
      | inl (same, now) ↦
          let is : slot ≡ v = cc in
          (max slot child, now, omega (arith, is), λ low. absurd (omega arith))
      | inr (apart, still) ↦ (v, still, omega arith, λ _. refl)
    ]

Capped-set :
    (reference child slot : ℕ) (hs : List ℕ)
    → child ≤ 1024
    → get_elem? hs reference ≡ some slot
    → Capped hs
    → Capped (set hs reference (max slot child))
Capped-set reference child slot hs small at capped j v h =
    elim (get_elem?-of-set hs reference j (max slot child) v h) [
      | inl is ↦ omega (arith, is, capped reference slot at)
      | inr old ↦ capped j v old
    ]

-- The loop over the references of one cell.
pub record References (usize_max reference_bytes cells index height count : ℕ)
    (s s' : BocReader × List ℕ) : Type 0 where
  pub row : List ℕ
  pub reads : read_references usize_max reference_bytes count s.0 ≡ ok (row, s'.0)
  pub higher : (place j : ℕ) → get_elem? row place ≡ some j → IsHigher cells index height s'.1 j
  pub grows : Grows (index + 1) s.1 s'.1
  pub capped : Capped s'.1

module _ (usize_max reference_bytes cells index height : ℕ) where
  -- One turn of the loop.
  reference-step :
      (count : ℕ) (r : BocReader) (hs : List ℕ) (s' : BocReader × List ℕ)
      → validate_references usize_max reference_bytes cells index height (suc count) (r, hs) ≡ ok s'
      → (reference : ℕ) × (r1 : BocReader) × (slot : ℕ) × (unsigned usize_max r reference_bytes
          ≡ some (reference, r1))
        × (index < reference)
        × (reference < cells)
        × (height + 1 ≤ 1024)
        × (get_elem? hs reference ≡ some slot)
        × (validate_references usize_max reference_bytes cells index height count
              (r1, set hs reference (max slot (height + 1)))
            ≡ ok s')
  unfolding validate_references
  reference-step count r hs s' h =
      let ((reference, r1), read, h1) = ok_or->>= (unsigned usize_max r reference_bytes) _ _ h in
      let (forward, h2) = guard->> (not (leb reference index || leb cells reference)) _ _ h1 in
      let (child, is, h3) = ok_or->>= (child_height height) _ _ h2 in
      let (slot, found, h4) = ok_or->>= (get_elem? hs reference) _ _ h3 in
      let (child_is, small) = child-step height child is in
      (
        reference,
        r1,
        slot,
        read,
        ground arith,
        ground arith,
        omega (arith, child_is, small),
        found,
        rw child_is at h4,
      )

  -- A reference that was higher stays so.
  pub IsHigher-Grows :
      (limit j : ℕ) (hs hs' : List ℕ)
      → Grows limit hs hs'
      → IsHigher cells index height hs j
      → IsHigher cells index height hs' j
  IsHigher-Grows limit j hs hs' g (forward, inside, (v, at, up)) =
      let (v', at', le, _) = g j v at in (forward, inside, (v', at', omega arith))

  written :
      (reference slot : ℕ) (hs : List ℕ)
      → index < reference
      → reference < cells
      → get_elem? hs reference ≡ some slot
      → IsHigher cells index height (set hs reference (max slot (height + 1))) reference
  written reference slot hs forward inside at =
      elim (get_elem?-set hs reference reference (max slot (height + 1)) at) [
        | inl (_, now) ↦ (forward, inside, (max slot (height + 1), now, omega arith))
        | inr (apart, _) ↦ absurd (apart refl)
      ]

  IsHigher-cons :
      (reference : ℕ) (row hs : List ℕ)
      → IsHigher cells index height hs reference
      → ((place j : ℕ) → get_elem? row place ≡ some j → IsHigher cells index height hs j)
      → (place j : ℕ) → get_elem? (reference ∷ row) place ≡ some j
      → IsHigher cells index height hs j
  IsHigher-cons reference row hs first others zero j h =
      let same : reference ≡ j = cc in subst (IsHigher cells index height hs) same first
  IsHigher-cons reference row hs first others (suc place) j h = others place j h

  no-References :
      (r : BocReader) (hs : List ℕ)
      → Capped hs
      → References usize_max reference_bytes cells index height zero (r, hs) (r, hs)
  unfolding read_references
  no-References r hs c = record {
    row = [];
    reads = refl;
    higher = λ place j is. absurd cc;
    grows = Grows-refl (index + 1) hs;
    capped = c;
  }

  pub References-loop :
      (count : ℕ) (r : BocReader) (hs : List ℕ) (s' : BocReader × List ℕ)
      → Capped hs
      → validate_references usize_max reference_bytes cells index height count (r, hs) ≡ ok s'
      → References usize_max reference_bytes cells index height count (r, hs) s'
  unfolding validate_references read_references
  References-loop zero r hs s' c h =
      let same : (r, hs) ≡ s' = cc in
      subst (References usize_max reference_bytes cells index height zero (r, hs)) same
        (no-References r hs c)
  References-loop (suc count) r hs s' c h =
      let (reference, r1, slot, read, forward, inside, small, at, rest) =
        reference-step count r hs s' h in
      let hs1 = set hs reference (max slot (height + 1)) in
      let grown = Grows-set index reference (height + 1) slot hs forward at in
      let later =
        References-loop count r1 hs1 s' (Capped-set reference (height + 1) slot hs small at c)
          rest in
      record {
        row = reference ∷ later.row;
        reads = rw (read, later.reads) refl;
        higher =
            IsHigher-cons reference later.row s'.1
              (IsHigher-Grows (index + 1) reference hs1 s'.1 later.grows
                (written reference slot hs forward inside at))
              later.higher;
        grows = Grows-trans (index + 1) (index + 1) hs hs1 s'.1 (omega arith) grown later.grows;
        capped = later.capped;
      }
