-- ===== src/OpenFile/Access.antt =====
-- The accesses for writing: writers and those who deny them, over any sequence of requests.
use cinquain_meta.Common.{
  ℕ, suc, ◌+◌, ◌-◌, ◌<◌, ◌≤◌, ◌^◌, ◌≡◌, refl, sym, ◌∙◌, ap, subst, ◌⊎◌, inl, inr, true, false, some,
  leb, arith, Bool-cases, inc32, dec32,
}
use cinquain_meta.Containers.{Ptr}
use cinquain_meta.Errno.{Errno, success, failure, etxtbsy}
use cinquain_meta.File.{File}
use cinquain_meta.Memory.{State, Inode, Dentry}
use cinquain_meta.Memory.Actions.{ret, update, left_by}
use cinquain_meta.OpenFile.{get_write_access, put_write_access, has_writers, deny_write_access}

-- `n` requests on the inode of an open file: those granted to writers, those that deny writers, the
-- writers that gave their access back, and the refusals. `w` writers and `d` denials stand.
pub data Requests (filp : File) (p : Ptr) (s0 : State) : ℕ → State → ℕ → ℕ → Type 0 where
  start : Requests filp p s0 0 s0 0 0
  got :
      (n : ℕ) (s s' : State) (w d : ℕ)
      → Requests filp p s0 n s w d
      → get_write_access p s ≡ ret success s'
      → Requests filp p s0 (suc n) s' (suc w) d
  put :
      (n : ℕ) (s s' : State) (w d : ℕ)
      → Requests filp p s0 n s (suc w) d
      → put_write_access p s ≡ ret tt s'
      → Requests filp p s0 (suc n) s' w d
  refused :
      (n : ℕ) (s s' : State) (w d : ℕ) (e : Errno)
      → Requests filp p s0 n s w d
      → (get_write_access p s ≡ ret (failure e) s')
        ⊎ (deny_write_access filp s ≡ ret (failure e) s')
      → Requests filp p s0 (suc n) s' w d
  denied :
      (n : ℕ) (s s' : State) (w d : ℕ)
      → Requests filp p s0 n s w d
      → deny_write_access filp s ≡ ret success s'
      → Requests filp p s0 (suc n) s' w (suc d)

-- the memory with another count of writers at an inode
abbrev pub with_count : State → Ptr → Inode → ℕ → State
with_count s p i n = record s { inodes = update s.inodes p (some (record i { i_writecount = n })) }

-- the counter, as writers or denials
abbrev pub Counted : ℕ → ℕ → ℕ → Type 0
Counted count w d = ((d ≡ 0) × (count ≡ w)) ⊎ ((w ≡ 0) × (0 < d) × (count ≡ 2 ^ 32 - d))

abbrev pub Held : File → Ptr → State → ℕ → ℕ → ℕ → Type 0
Held filp p s n w d =
    (e : Dentry) × (i : Inode) × (s.dentries filp.f_dentry ≡ some e)
    × (e.d_inode ≡ p)
    × (s.inodes p ≡ some i)
    × (w + d ≤ n)
    × Counted i.i_writecount w d

-- The requests, as the test of the counter decides.
pub got-free :
    (p : Ptr) (s : State) (i : Inode)
    → s.inodes p ≡ some i
    → leb (2 ^ 31) i.i_writecount ≡ false
    → get_write_access p s ≡ ret success (with_count s p i (inc32 i.i_writecount))
unfolding get_write_access
got-free p s i at free = rw (at, free, at) refl

pub got-shut :
    (p : Ptr) (s : State) (i : Inode)
    → s.inodes p ≡ some i
    → leb (2 ^ 31) i.i_writecount ≡ true
    → get_write_access p s ≡ ret (failure etxtbsy) s
unfolding get_write_access
got-shut p s i at shut = rw (at, shut) refl

denied-free :
    (filp : File) (p : Ptr) (s : State) (e : Dentry) (i : Inode)
    → s.dentries filp.f_dentry ≡ some e
    → e.d_inode ≡ p
    → s.inodes p ≡ some i
    → has_writers i.i_writecount ≡ false
    → deny_write_access filp s ≡ ret success (with_count s p i (dec32 i.i_writecount))
unfolding deny_write_access
denied-free filp p s e i at_e same at free = rw (at_e, same, at, free, at) refl

denied-shut :
    (filp : File) (p : Ptr) (s : State) (e : Dentry) (i : Inode)
    → s.dentries filp.f_dentry ≡ some e
    → e.d_inode ≡ p
    → s.inodes p ≡ some i
    → has_writers i.i_writecount ≡ true
    → deny_write_access filp s ≡ ret (failure etxtbsy) s
unfolding deny_write_access
denied-shut filp p s e i at_e same at shut = rw (at_e, same, at, shut) refl

put-run :
    (p : Ptr) (s : State) (i : Inode)
    → s.inodes p ≡ some i
    → put_write_access p s ≡ ret tt (with_count s p i (dec32 i.i_writecount))
unfolding put_write_access
put-run p s i at = rw at refl

with_count-Held :
    (filp : File) (p : Ptr) (s s' : State) (n w d : ℕ) (e : Dentry) (i : Inode) (count : ℕ)
    → s' ≡ with_count s p i count
    → s.dentries filp.f_dentry ≡ some e
    → e.d_inode ≡ p
    → w + d ≤ n
    → Counted count w d
    → Held filp p s' n w d
with_count-Held filp p s s' n w d e i count left at_e same sum counted =
    subst (λ t. Held filp p t n w d) (sym left)
      (e, record i { i_writecount = count }, at_e, same, ground arith, sum, counted)

step_got :
    (filp : File) (p : Ptr) (s s' : State) (n w d : ℕ)
    → n < 2 ^ 31 - 1
    → Held filp p s n w d
    → get_write_access p s ≡ ret success s'
    → Held filp p s' (suc n) (suc w) d
unfolding inc32
step_got filp p s s' n w d few (e, i, at_e, same, at, sum, counted) run = elim counted [
  | inl (no_denial, count) ↦
      let free : leb (2 ^ 31) i.i_writecount ≡ false = ground arith in
      let left = ap (left_by s) (sym run ∙ got-free p s i at free) in
      with_count-Held filp p s s' (suc n) (suc w) d e i (inc32 i.i_writecount) left at_e same
        (omega arith) (inl (no_denial, omega arith))
  | inr (no_writer, some_denial, count) ↦
      let shut : leb (2 ^ 31) i.i_writecount ≡ true = ground arith in
      let both = sym run ∙ got-shut p s i at shut in absurd (ground (arith, both))
]

step_put :
    (filp : File) (p : Ptr) (s s' : State) (n w d : ℕ)
    → n < 2 ^ 31 - 1
    → Held filp p s n (suc w) d
    → put_write_access p s ≡ ret tt s'
    → Held filp p s' (suc n) w d
unfolding dec32
step_put filp p s s' n w d few (e, i, at_e, same, at, sum, counted) run =
    let left = ap (left_by s) (sym run ∙ put-run p s i at) in
    with_count-Held filp p s s' (suc n) w d e i (dec32 i.i_writecount) left at_e same (omega arith)
      (elim counted [
        | inl (no_denial, count) ↦ inl (no_denial, omega arith)
        | inr (no_writer, _, _) ↦ absurd (omega arith)
      ])

step_denied :
    (filp : File) (p : Ptr) (s s' : State) (n w d : ℕ)
    → n < 2 ^ 31 - 1
    → Held filp p s n w d
    → deny_write_access filp s ≡ ret success s'
    → Held filp p s' (suc n) w (suc d)
unfolding dec32
step_denied filp p s s' n w d few (e, i, at_e, same, at, sum, counted) run =
    elim (Bool-cases (has_writers i.i_writecount)) [
      | inl shut ↦
          let both = sym run ∙ denied-shut filp p s e i at_e same at shut in
          absurd (ground (arith, both))
      | inr free ↦
          let left = ap (left_by s) (sym run ∙ denied-free filp p s e i at_e same at free) in
          with_count-Held filp p s s' (suc n) w (suc d) e i (dec32 i.i_writecount) left at_e same
            (omega arith)
            (elim counted [
              | inl (no_denial, count) ↦
                  let no_writer : w ≡ 0 = ground arith in inr (no_writer, omega arith, omega arith)
              | inr (no_writer, some_denial, count) ↦ inr (no_writer, omega arith, omega arith)
            ])
    ]

step_refused :
    (filp : File) (p : Ptr) (s s' : State) (n w d : ℕ) (error : Errno)
    → Held filp p s n w d
    → (get_write_access p s ≡ ret (failure error) s')
      ⊎ (deny_write_access filp s ≡ ret (failure error) s')
    → Held filp p s' (suc n) w d
step_refused filp p s s' n w d error (e, i, at_e, same, at, sum, counted) (inl run) =
    elim (Bool-cases (leb (2 ^ 31) i.i_writecount)) [
      | inl shut ↦
          let left = ap (left_by s) (sym run ∙ got-shut p s i at shut) in
          subst (λ t. Held filp p t (suc n) w d) (sym left)
            (e, i, at_e, same, at, omega arith, counted)
      | inr free ↦ let both = sym run ∙ got-free p s i at free in absurd (ground (arith, both))
    ]
step_refused filp p s s' n w d error (e, i, at_e, same, at, sum, counted) (inr run) =
    elim (Bool-cases (has_writers i.i_writecount)) [
      | inl shut ↦
          let left = ap (left_by s) (sym run ∙ denied-shut filp p s e i at_e same at shut) in
          subst (λ t. Held filp p t (suc n) w d) (sym left)
            (e, i, at_e, same, at, omega arith, counted)
      | inr free ↦
          let both = sym run ∙ denied-free filp p s e i at_e same at free in
          absurd (ground (arith, both))
    ]

-- After fewer than 2 ^ 31 requests on the inode of a file, which began with the counter at 0: the
-- counter is the number of writers, or that of denials negated, and there are never both.
pub Requests-Held :
    (filp : File) (p : Ptr) (s0 : State) (e : Dentry) (i : Inode)
    → s0.dentries filp.f_dentry ≡ some e
    → e.d_inode ≡ p
    → s0.inodes p ≡ some i
    → i.i_writecount ≡ 0
    → (n : ℕ) (s : State) (w d : ℕ) → n < 2 ^ 31
    → Requests filp p s0 n s w d
    → Held filp p s n w d
Requests-Held filp p s0 e i at_e same at none_yet _ _ _ _ few start =
    (e, i, at_e, same, at, omega arith, inl (refl, none_yet))
Requests-Held filp p s0 e i at_e same at none_yet _ _ _ _ few (got m t s w' d before run) =
    step_got filp p t s m w' d (omega arith)
      (Requests-Held filp p s0 e i at_e same at none_yet m t w' d (omega arith) before) run
Requests-Held filp p s0 e i at_e same at none_yet _ _ _ _ few (put m t s w d before run) =
    step_put filp p t s m w d (omega arith)
      (Requests-Held filp p s0 e i at_e same at none_yet m t (suc w) d (omega arith) before) run
Requests-Held filp p s0 e i at_e same at none_yet _ _ _ _ few (denied m t s w d' before run) =
    step_denied filp p t s m w d' (omega arith)
      (Requests-Held filp p s0 e i at_e same at none_yet m t w d' (omega arith) before) run
Requests-Held filp p s0 e i at_e same at none_yet _ _ _ _ few (refused m t s w d error before run) =
    step_refused filp p t s m w d error
      (Requests-Held filp p s0 e i at_e same at none_yet m t w d (omega arith) before) run
