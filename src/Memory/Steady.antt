-- ===== src/Memory/Steady.antt =====
-- What actions leave as it was, whatever they are given: facts on a run's result that a chain of
-- actions hands on.
use cinquain_meta.Common.{
  ◌≤◌, ◌≡◌, refl, ◌∙◌, Bool, true, false, Option, none, some, ◌==◌, arith, if◌then◌else◌,
  Bool-cases, ◌⊎◌, inl, inr, ◌≢◌,
}
use cinquain_meta.Containers.{Ptr, null}
use cinquain_meta.Memory.{State, Inode, Tag, Dentry}
use cinquain_meta.Memory.Actions.{
  Run, ret, fault, diverges, M, pure, and_then, ◌>>=◌, found, fsnode_at, tag_at, cnode_at, inode_at,
  dentry_at, store_inode, store_dentry, set_tag, set_inode, set_dentry, malloc, current_time, gets,
}

-- The run ends with a result and a memory of which `Q` holds, or it does not end with a result.
abbrev pub Post : {A : Type 0} → (A → State → Type 0) → Run A → Type 0
Post Q (ret a s) = Q a s
Post Q fault = Unit
Post Q diverges = Unit

module _ {A B : Type 0} where
  pub Post-and_then :
      (P : A → State → Type 0) (Q : B → State → Type 0) (r : Run A) (k : A → M B)
      → Post P r
      → ((a : A) (s : State) → P a s → Post Q (k a s))
      → Post Q (and_then r k)
  Post-and_then P Q (ret a s) k p next = next a s p
  Post-and_then P Q fault k p next = tt
  Post-and_then P Q diverges k p next = tt

-- what an Option holds
pub held : {A : Type 0} (o : Option A) → (o ≡ none) ⊎ ((a : A) × (o ≡ some a))
held none = inl refl
held (some a) = inr (a, refl)

-- No cnode and no file system changes, no address is given back to malloc, and no tag stands at NULL
-- that did not before.
pub record Still (s s' : State) : Type 0 where
  pub cnodes : (q : Ptr) → s'.cnodes q ≡ s.cnodes q
  pub fsnodes : (q : Ptr) → s'.fsnodes q ≡ s.fsnodes q
  pub brk : s.brk ≤ s'.brk
  pub null_tag : s.tags null ≡ none → s'.tags null ≡ none

pub Still-refl : (s : State) → Still s s
Still-refl s = record {
  cnodes = λ q. refl;
  fsnodes = λ q. refl;
  brk = omega arith;
  null_tag = λ n. n;
}

pub Still-trans : (s t v : State) → Still s t → Still t v → Still s v
Still-trans s t v g h = record {
  cnodes = λ q. h.cnodes q ∙ g.cnodes q;
  fsnodes = λ q. h.fsnodes q ∙ g.fsnodes q;
  brk = omega (arith, g.brk, h.brk);
  null_tag = λ n. h.null_tag (g.null_tag n);
}

pub record Steady {A : Type 0} (m : M A) : Type 0 where
  pub still : (s : State) → Post (λ a s'. Still s s') (m s)

pub Post-map :
    {A : Type 0} (P Q : A → State → Type 0) (r : Run A)
    → Post P r
    → ((a : A) (s : State) → P a s → Q a s)
    → Post Q r
Post-map P Q (ret a s) p f = f a s p
Post-map P Q fault p f = tt
Post-map P Q diverges p f = tt

pub Steady-bind :
    {A B : Type 0} {m : M A} {k : A → M B} → Steady m → ((a : A) → Steady (k a)) → Steady (m >>= k)
Steady-bind {m = m} {k = k} first next = record {
  still = λ s.
      Post-and_then (λ a s'. Still s s') (λ b s'. Still s s') (m s) k (first.still s)
        (λ a t g.
          Post-map (λ b v. Still t v) (λ b v. Still s v) (k a t) ((next a).still t)
            (λ b v h. Still-trans s t v g h));
}

module _ {A : Type 0} where
  pub Steady-if : (c : Bool) {m n : M A} → Steady m → Steady n → Steady (if c then m else n)
  Steady-if true first second = first
  Steady-if false first second = second

  pub Steady-pure : (a : A) → Steady {A = A} (pure a)
  Steady-pure a = record { still = λ s. Still-refl s }

  Steady-found : (o : Option A) (s : State) → Post (λ a s'. Still s s') (found o s)
  Steady-found none s = tt
  Steady-found (some a) s = Still-refl s

pub Steady-tag_at : (p : Ptr) → Steady (tag_at p)
Steady-tag_at p = record { still = λ s. Steady-found (s.tags p) s }

pub Steady-cnode_at : (p : Ptr) → Steady (cnode_at p)
Steady-cnode_at p = record { still = λ s. Steady-found (s.cnodes p) s }

pub Steady-inode_at : (p : Ptr) → Steady (inode_at p)
Steady-inode_at p = record { still = λ s. Steady-found (s.inodes p) s }

pub Steady-dentry_at : (p : Ptr) → Steady (dentry_at p)
Steady-dentry_at p = record { still = λ s. Steady-found (s.dentries p) s }

pub Steady-fsnode_at : (p : Ptr) → Steady (fsnode_at p)
Steady-fsnode_at p = record { still = λ s. Steady-found (s.fsnodes p) s }

pub Steady-store_inode : (p : Ptr) (v : Option Inode) → Steady (store_inode p v)
Steady-store_inode p v = record {
  still =
      λ s. record { cnodes = λ q. refl; fsnodes = λ q. refl; brk = omega arith; null_tag = λ n. n };
}

pub Steady-store_dentry : (p : Ptr) (v : Option Dentry) → Steady (store_dentry p v)
Steady-store_dentry p v = record {
  still =
      λ s. record { cnodes = λ q. refl; fsnodes = λ q. refl; brk = omega arith; null_tag = λ n. n };
}

pub Steady-now : Steady current_time
Steady-now = record { still = λ s. Still-refl s }

pub Steady-set_tag : (p : Ptr) (f : Tag → Tag) → Steady (set_tag p f)
Steady-set_tag p f = record {
  still = λ s. elim (held (s.tags p)) [
    | inl gone ↦ rw gone tt
    | inr (t, at) ↦ rw at (record {
      cnodes = λ q. refl;
      fsnodes = λ q. refl;
      brk = omega arith;
      null_tag = λ n. let ne : p ≢ null = λ e. ground arith in ground arith;
    })
  ];
}

pub Steady-set_inode : (p : Ptr) (f : Inode → Inode) → Steady (set_inode p f)
Steady-set_inode p f = Steady-bind (Steady-inode_at p) (λ v. Steady-store_inode p (some (f v)))

pub Steady-set_dentry : (p : Ptr) (f : Dentry → Dentry) → Steady (set_dentry p f)
Steady-set_dentry p f = Steady-bind (Steady-dentry_at p) (λ v. Steady-store_dentry p (some (f v)))

pub Steady-malloc : Steady malloc
Steady-malloc = record {
  still = λ s. elim (Bool-cases (s.avail == 0)) [
    | inl e ↦ rw e (Still-refl s)
    | inr e ↦
        rw e
          (record { cnodes = λ q. refl; fsnodes = λ q. refl; brk = omega arith; null_tag = λ n. n })
  ];
}

pub Steady-gets : {A : Type 0} (f : State → A) → Steady (gets f)
Steady-gets f = record { still = λ s. Still-refl s }

pub ruleset steady = (
  Steady-bind, Steady-if, Steady-pure, Steady-tag_at, Steady-cnode_at, Steady-inode_at,
  Steady-dentry_at, Steady-fsnode_at, Steady-store_inode, Steady-store_dentry, Steady-now,
  Steady-gets, Steady-set_tag, Steady-set_inode, Steady-set_dentry, Steady-malloc,
)
