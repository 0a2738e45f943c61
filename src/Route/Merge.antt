-- ===== src/Route/Merge.antt =====
-- tools/gameplay_route.py, merge_trace: the counts of a probe added to those of a base trace.
-- The files are the parameters `old` and `old_pcs`; whether the base trace belongs to the ROM is the
-- parameter `same_rom`. The written files are the fields of the answer.
use nes2snes.Common.{ℕ, zero, suc, ◌+◌, ◌*◌, min, Bool, false, not, ◌&&◌, ◌||◌}
use nes2snes.Common.{
  List, [], ◌∷◌, length, drop, slice, from_bytes, ltb, ◌==◌, if◌then◌else◌, Bytes,
}
use nes2snes.Common.{Result, ok, ◌>>◌, raise_if}

pub data MergeError : Type 0 where
  other_rom unexpected_size several_slots : MergeError

-- `struct.unpack` of n little-endian numbers of a width
unfoldable pub words : ℕ → ℕ → Bytes → List ℕ
words width zero bytes = []
words width (suc n) bytes = from_bytes (slice bytes 0 width) ∷ words width n (drop width bytes)

-- `any(i and j and i != j for i, j in zip(x, y))`
unfoldable pub conflict : List ℕ → List ℕ → Bool
conflict [] ys = false
conflict (i ∷ xs) [] = false
conflict (i ∷ xs) (j ∷ ys) = (not (i == 0) && (not (j == 0) && not (i == j))) || conflict xs ys

unfoldable pub merged_count : ℕ → ℕ → ℕ
merged_count i j = min 0xffffffff (i + j)

unfoldable pub merged_counts : List ℕ → List ℕ → List ℕ
unfolding merged_count
merged_counts [] bs = []
merged_counts (i ∷ l) [] = []
merged_counts (i ∷ l) (j ∷ bs) = merged_count i j ∷ merged_counts l bs

-- `i or j`
unfoldable pub merged_address : ℕ → ℕ → ℕ
merged_address i j = if i == 0 then j else i

unfoldable pub merged_addresses : List ℕ → List ℕ → List ℕ
unfolding merged_address
merged_addresses [] ys = []
merged_addresses (i ∷ xs) [] = []
merged_addresses (i ∷ xs) (j ∷ ys) = merged_address i j ∷ merged_addresses xs ys

unfoldable pub is_site : ℕ → Bool
is_site n = ltb 0 n

-- `sum(j > 0 and i == 0 for i, j in zip(a, b))`
unfoldable pub new_sites : List ℕ → List ℕ → ℕ
unfolding is_site
new_sites [] bs = 0
new_sites (i ∷ l) [] = 0
new_sites (i ∷ l) (j ∷ bs) =
    let later = new_sites l bs in if is_site j && i == 0 then suc later else later

unfoldable pub all_sites : List ℕ → ℕ
unfolding is_site
all_sites [] = 0
all_sites (i ∷ rest) = let later = all_sites rest in if is_site i then suc later else later

unfoldable pub total_count : List ℕ → ℕ
total_count [] = 0
total_count (i ∷ rest) = i + total_count rest

pub record Merged : Type 0 where
  pub counts : List ℕ
  pub addresses : List ℕ
  pub palette : Bytes
  pub new_observed_sites : ℕ
  pub observed_sites : ℕ
  pub executions : ℕ

unfoldable pub merge_trace :
    Bool → Bytes → Bytes → Bytes → Bytes → Bytes → Bytes → Result MergeError Merged
unfolding words conflict merged_counts merged_addresses new_sites all_sites total_count
merge_trace same_rom prg old old_pcs counts pcs palette =
    let n = length prg in
    let a = words 4 n old in
    let b = words 4 n counts in
    let x = words 2 n old_pcs in
    let y = words 2 n pcs in
    do
      raise_if (not same_rom) other_rom
      raise_if
          (not (length counts == n * 4)
            || (not (length pcs == n * 2)
                || (not (length old == n * 4)
                    || (not (length old_pcs == n * 2) || not (length palette == 192)))))
          unexpected_size
      raise_if (conflict x y) several_slots
      ok (record {
        counts = merged_counts a b;
        addresses = merged_addresses x y;
        palette = palette;
        new_observed_sites = new_sites a b;
        observed_sites = all_sites (merged_counts a b);
        executions = total_count (merged_counts a b);
      })
