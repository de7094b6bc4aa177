-- ===== src/Fingerprint.antt =====
-- file.c, cfp_set_value: the key of an inode's data in the cache. It is hash_64 of util.h over the
-- address that stands in i_ino, at 64 bits.
use cinquain_meta.Common.{
  ℕ, ◌+◌, ◌-◌, ◌*◌, ◌/◌, ◌%◌, ◌^◌, ◌<◌, ◌≡◌, ◌≢◌, refl, some, ◌∙◌, sym, ap, arith,
}
use cinquain_meta.Containers.{Ptr}
use cinquain_meta.Memory.{State, Inode}
use cinquain_meta.Memory.Actions.{M, ret, pure, ◌>>=◌, inode_at}

-- arithmetic of u64
abbrev shl64 : ℕ → ℕ → ℕ
shl64 n k = n * 2 ^ k % 2 ^ 64

abbrev add64 : ℕ → ℕ → ℕ
add64 a b = (a + b) % 2 ^ 64

abbrev sub64 : ℕ → ℕ → ℕ
sub64 a b = (a + 2 ^ 64 - b) % 2 ^ 64

-- hash_64(val, bits): the six shifted copies of `val`, then the high bits
unfoldable pub hash_64 : ℕ → ℕ → ℕ
hash_64 val bits =
    let n1 = shl64 val 18 in
    let h1 = sub64 val n1 in
    let n2 = shl64 n1 33 in
    let h2 = sub64 h1 n2 in
    let n3 = shl64 n2 3 in
    let h3 = add64 h2 n3 in
    let n4 = shl64 n3 3 in
    let h4 = sub64 h3 n4 in
    let n5 = shl64 n4 4 in
    let h5 = add64 h4 n5 in let n6 = shl64 n5 2 in let h6 = add64 h5 n6 in h6 / 2 ^ (64 - bits)

-- the multiplier that the shifts stand for
abbrev pub golden_ratio_64 : ℕ
golden_ratio_64 = 0x9e37fffffffc0001

unfoldable pub cfp_set_value : Ptr → M ℕ
cfp_set_value inode = do i ← inode_at inode; pure (hash_64 i.i_ino 64)

-- At 64 bits, for a value of 64 bits, the shifts and sums of hash_64 are one multiplication.
pub hash_64-eq-mul : (v : ℕ) → v < 2 ^ 64 → hash_64 v 64 ≡ v * golden_ratio_64 % 2 ^ 64
unfolding hash_64
hash_64-eq-mul v h = omega arith

-- multiplication by the inverse of the odd multiplier takes the hash back
hash_64-inverse : (v : ℕ) → v < 2 ^ 64 → hash_64 v 64 * 0x6208001000040001 % 2 ^ 64 ≡ v
hash_64-inverse v h = omega (arith, hash_64-eq-mul v h)

hash_64-injective : (v w : ℕ) → v < 2 ^ 64 → w < 2 ^ 64 → hash_64 v 64 ≡ hash_64 w 64 → v ≡ w
hash_64-injective v w hv hw e =
    sym (hash_64-inverse v hv)
    ∙ ap (λ (h : ℕ). h * 0x6208001000040001 % 2 ^ 64) e
    ∙ hash_64-inverse w hw

-- Two inodes whose tags have different addresses, of 64 bits, have different keys in the cache.
pub cfp_set_value-distinct :
    (s : State) (p q : Ptr) (i j : Inode)
    → s.inodes p ≡ some i
    → s.inodes q ≡ some j
    → i.i_ino < 2 ^ 64
    → j.i_ino < 2 ^ 64
    → i.i_ino ≢ j.i_ino
    → (fp : ℕ) × (fq : ℕ) × (cfp_set_value p s ≡ ret fp s)
      × (cfp_set_value q s ≡ ret fq s)
      × (fp ≢ fq)
unfolding cfp_set_value
cfp_set_value-distinct s p q i j at_p at_q hi hj ne = (
  hash_64 i.i_ino 64,
  hash_64 j.i_ino 64,
  rw at_p refl,
  rw at_q refl,
  λ e. ne (hash_64-injective i.i_ino j.i_ino hi hj e),
)
