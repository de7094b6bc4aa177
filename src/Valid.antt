-- ===== src/Valid.antt =====
-- The tables of the cnodes, through every operation of cnode.c on names: uthash demands of its
-- callers that no two elements of a table have the same key, and that none is NULL.
pub mod Tables
pub mod Quiet
pub mod Names
pub mod Attach
pub mod Counts
pub mod Operations
pub mod Served
use cinquain_meta.Common.{
  ◌+◌, ◌≤◌, ◌<◌, ◌≡◌, ◌≢◌, refl, sym, ◌∙◌, ap, Bool, true, false, Option, none, some, ◌==◌, arith,
  if◌then◌else◌, Bool-cases, inl, inr,
}
use cinquain_meta.Containers.{Ptr, null, IsTable}
use cinquain_meta.Memory.{State, Cnode}
use cinquain_meta.Memory.Actions.{M, Run, ret, pure, and_then, ◌>>=◌, update}
use cinquain_meta.Memory.Steady.{Post, Post-and_then, Post-map, Steady, Still}

-- No cnode stands at an address that malloc has not given out, no tag stands at NULL, and both tables of each cnode are
-- tables.
pub record Valid (s : State) : Type 0 where
  pub low : 0 < s.brk
  pub no_cnode : (q : Ptr) → s.brk ≤ q → s.cnodes q ≡ none
  pub null_tag : s.tags null ≡ none
  pub tables :
      (q : Ptr) (c : Cnode) → s.cnodes q ≡ some c → IsTable c.ci_tags × IsTable c.ci_children

-- The memory stays valid and no file system changes.
pub record Kept (s s' : State) : Type 0 where
  pub valid : Valid s'
  pub fsnodes : (q : Ptr) → s'.fsnodes q ≡ s.fsnodes q

pub record Keeps {A : Type 0} (m : M A) : Type 0 where
  pub keeps : (s : State) → Valid s → Post (λ a s'. Kept s s') (m s)

pub still-Kept : (s s' : State) → Valid s → Still s s' → Kept s s'
still-Kept s s' v g = record {
  valid = record {
    low = omega (arith, v.low, g.brk);
    no_cnode = λ q above. g.cnodes q ∙ v.no_cnode q (omega (arith, g.brk));
    null_tag = g.null_tag v.null_tag;
    tables = λ q c at. v.tables q c (sym (g.cnodes q) ∙ at);
  };
  fsnodes = g.fsnodes;
}

pub Kept-trans : (s t v : State) → Kept s t → Kept t v → Kept s v
Kept-trans s t v g h = record { valid = h.valid; fsnodes = λ q. h.fsnodes q ∙ g.fsnodes q }

pub Keeps-Steady : {A : Type 0} {m : M A} → Steady m → Keeps m
Keeps-Steady {m = m} g = record {
  keeps = λ s v.
      Post-map (λ a s'. Still s s') (λ a s'. Kept s s') (m s) (g.still s)
        (λ a s'. still-Kept s s' v);
}

-- What a chain keeps, when the first action's result is known to be such that the rest keeps it.
pub Keeps-then :
    {A B : Type 0} (Q : A → State → Type 0) (s : State) (r : Run A) (k : A → M B)
    → Post Q r
    → ((a : A) (t : State) → Q a t → Kept s t × Post (λ b v. Kept t v) (k a t))
    → Post (λ b v. Kept s v) (and_then r k)
Keeps-then Q s r k first next =
    Post-and_then Q (λ b v. Kept s v) r k first
      (λ a t q.
        let (g, h) = next a t q in
        Post-map (λ b v. Kept t v) (λ b v. Kept s v) (k a t) h (λ b v. Kept-trans s t v g))

pub Keeps-bind :
    {A B : Type 0} {m : M A} {k : A → M B} → Keeps m → ((a : A) → Keeps (k a)) → Keeps (m >>= k)
Keeps-bind {m = m} {k = k} first next = record {
  keeps = λ s v.
      Keeps-then (λ a t. Kept s t) s (m s) k (first.keeps s v)
        (λ a t g. (g, (next a).keeps t g.valid));
}

pub Keeps-if : {A : Type 0} (c : Bool) {m n : M A} → Keeps m → Keeps n → Keeps (if c then m else n)
Keeps-if true first second = first
Keeps-if false first second = second
