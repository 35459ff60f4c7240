-- ===== src/Header/Continuous.antt =====
-- The property `is_continuous` of `PacketHeader` in sigmadsp/sigmastudio/header.py.
use sigmadsp.Prelude.{
  ℕ, ◌+◌, ◌≤◌, ◌<◌, ◌≡◌, refl, ◌↔◌, true, ◌&&◌, [], ◌∷◌, arith, if◌then◌else◌, leb, ltb, All,
}
use sigmadsp.Prelude.Int.{◌+ℤ◌}
use sigmadsp.Header.{Field, PacketHeader, size, is_continuous, end}
use sigmadsp.Header.Codec.{IsPacked}
use sigmadsp.Header.Fields.{IsSorted, EndsBefore, IsHeaderDict}

-- How many fields the byte `i` belongs to.
unfoldable pub owners : ℕ → PacketHeader → ℕ
owners i [] = 0
owners i (f ∷ h) = (if leb f.offset i && ltb i (f.offset + f.size) then 1 else 0) + owners i h

-- Each byte of a packed header belongs to one field, and no other byte belongs to any.
owners-IsPacked :
    (i k : ℕ) (h : PacketHeader)
    → IsPacked k h
    → owners i h ≡ (if leb k i && ltb i (k + size h) then 1 else 0)
unfolding owners size
owners-IsPacked i k [] packed = ground arith
owners-IsPacked i k (f ∷ h) packed =
    ground (arith, owners-IsPacked i (k + f.size) h packed.1, packed.0)

-- The byte after the last field.
unfoldable pub end_of_last : Field → PacketHeader → ℕ
end_of_last f [] = f.offset + f.size
end_of_last f (g ∷ h) = end_of_last g h

abbrev pub HasBytes : Field → Type 0
HasBytes f = 0 < f.size

-- Every byte from the first field to the last belongs to exactly one field.
abbrev pub IsPartition : Field → PacketHeader → Type 0
IsPartition f h = (i : ℕ) → f.offset ≤ i → i < end_of_last f h → owners i (f ∷ h) ≡ 1

end_of_last-after :
    (f : Field) (h : PacketHeader)
    → IsSorted (f ∷ h)
    → All HasBytes (f ∷ h)
    → f.offset < end_of_last f h
unfolding end_of_last
end_of_last-after f [] sorted full = omega (arith, full.0)
end_of_last-after f (g ∷ h) sorted full =
    omega (arith, end_of_last-after g h sorted.1 full.1, sorted.0)

owners-before :
    (i : ℕ) (f : Field) (h : PacketHeader) → IsSorted (f ∷ h) → i < f.offset → owners i (f ∷ h) ≡ 0
unfolding owners
owners-before i f [] sorted before = ground arith
owners-before i f (g ∷ h) sorted before =
    ground (arith, owners-before i g h sorted.1 (omega (arith, before, sorted.0)))

end_of_last-IsPacked :
    (f : Field) (h : PacketHeader)
    → IsPacked f.offset (f ∷ h)
    → end_of_last f h ≡ f.offset + size (f ∷ h)
unfolding end_of_last size
end_of_last-IsPacked f [] packed = omega arith
end_of_last-IsPacked f (g ∷ h) packed =
    omega (arith, packed.1.0, end_of_last-IsPacked g h (refl, rw (← packed.1.0) at packed.1.1))

continuous_step :
    (f g : Field) (h : PacketHeader)
    → (is_continuous (f ∷ g ∷ h) ≡ true)
      ↔ ((g.offset ≡ f.offset + f.size) × (is_continuous (g ∷ h) ≡ true))
unfolding is_continuous end ◌+ℤ◌
continuous_step f g h = ground arith

continuous-IsPacked :
    (f : Field) (h : PacketHeader) → is_continuous (f ∷ h) ≡ true → IsPacked f.offset (f ∷ h)
continuous-IsPacked f [] c = (refl, tt)
continuous-IsPacked f (g ∷ h) c =
    let (follows, rest) = (continuous_step f g h).0 c in
    let tail : IsPacked g.offset (g ∷ h) = continuous-IsPacked g h rest in
    (refl, (follows, rw follows at tail.1))

-- In a partition, the next field begins where the first ends.
partition_follows :
    (f g : Field) (h : PacketHeader)
    → IsSorted (f ∷ g ∷ h)
    → EndsBefore (f ∷ g ∷ h)
    → All HasBytes (f ∷ g ∷ h)
    → IsPartition f (g ∷ h)
    → g.offset ≡ f.offset + f.size
unfolding owners end_of_last
partition_follows f g h sorted ends full covers =
    let gap : f.offset + f.size < g.offset → ⊥ = λ apart.
      let one =
        covers (f.offset + f.size) (omega arith)
          (omega (arith, apart, end_of_last-after g h sorted.1 full.1)) in
      ground (arith, one, owners-before (f.offset + f.size) g h sorted.1 apart) in
    let overlap : g.offset < f.offset + f.size → ⊥ = λ shared.
      let one = covers g.offset sorted.0 (end_of_last-after g h sorted.1 full.1) in
      ground (arith, one, shared, sorted.0, full.1.0) in
    ground (arith, gap, overlap)

partition-continuous :
    (f : Field) (h : PacketHeader)
    → IsSorted (f ∷ h)
    → EndsBefore (f ∷ h)
    → All HasBytes (f ∷ h)
    → IsPartition f h
    → is_continuous (f ∷ h) ≡ true
unfolding end_of_last
partition-continuous f [] sorted ends full covers = unfold is_continuous in refl
partition-continuous f (g ∷ h) sorted ends full covers =
    let follows = partition_follows f g h sorted ends full covers in
    let tail : IsPartition g h = λ i from to.
      unfold owners in ground (arith, covers i (omega (arith, from, sorted.0)) to, follows) in
    (continuous_step f g h).1 (follows, partition-continuous g h sorted.1 ends.1 full.1 tail)

-- On a header as `add_field` leaves it, whose fields have a byte at least, `is_continuous` holds
-- exactly when every byte from the first field to the last belongs to exactly one field.
pub continuous-IsPartition :
    (f : Field) (h : PacketHeader)
    → IsHeaderDict (f ∷ h)
    → All HasBytes (f ∷ h)
    → (is_continuous (f ∷ h) ≡ true) ↔ IsPartition f h
continuous-IsPartition f h dict full = (
  λ c i from to.
      let packed = continuous-IsPacked f h c in
      ground (
        arith,
        owners-IsPacked i f.offset (f ∷ h) packed,
        end_of_last-IsPacked f h packed,
        from,
        to,
      ),
  partition-continuous f h dict.sorted dict.ends full,
)
