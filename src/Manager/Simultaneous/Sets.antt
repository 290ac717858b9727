-- ===== src/Manager/Simultaneous/Sets.antt =====
-- Sets of transactions as lists, and sets of such sets.
use transactron.Prelude.{
  ℕ, Bool, true, false, not, ◌&&◌, ◌||◌, List, [], ◌∷◌, ◌++◌, ◌==◌, ==_iff, ==_refl, subst,
  contains, contains-append, In, any, ◌≡◌, refl, sym, ◌∙◌, arith, Bool-cases, inl, inr,
}
use transactron.Graph.{Graph}
use transactron.Manager.MethodMap.{targets}
use transactron.Manager.Simultaneous.{Group, subset, same, union, meets, has_group, conflicting}

-- The same elements.
abbrev pub Same : Group → Group → Type 0
Same g h = (v : ℕ) → contains g v ≡ contains h v

-- A set of sets has a set.
abbrev pub Has : List Group → Group → Type 0
Has gs g = has_group gs g ≡ true

pub contains-union : (g h : Group) (v : ℕ) → contains (union g h) v ≡ (contains g v || contains h v)
contains-union g [] v = ground arith
contains-union g (x ∷ h) v =
    ground
      (arith, contains-union g h v, contains-union (g ++ x ∷ []) h v, contains-append g (x ∷ []) v)

pub subset-In : (g h : Group) (v : ℕ) → subset g h ≡ true → In v g → In v h
subset-In [] h v s m = cc
subset-In (x ∷ g) h v s m = ground (arith, subset-In g h v)

pub subset_cons : (g h : Group) (x : ℕ) → subset g h ≡ true → subset g (x ∷ h) ≡ true
subset_cons [] h x s = refl
subset_cons (y ∷ g) h x s = ground (arith, subset_cons g h x)

pub subset_of : (g h : Group) → ((v : ℕ) → In v g → In v h) → subset g h ≡ true
subset_of [] h f = refl
subset_of (x ∷ g) h f =
    let head : In x h = f x (ground arith) in
    ground (arith, subset_of g h (λ v m. f v (ground arith)))

pub same-Same : (g h : Group) → same g h ≡ true → Same g h
same-Same g h s v = ground (arith, subset-In g h v, subset-In h g v)

pub Same-same : (g h : Group) → Same g h → same g h ≡ true
Same-same g h s =
    ground (arith, subset_of g h (λ v m. sym (s v) ∙ m), subset_of h g (λ v m. s v ∙ m))

pub Has-Same : (gs : List Group) (g h : Group) → Has gs g → Same g h → Has gs h
Has-Same [] g h m s = cc
Has-Same (k ∷ gs) g h m s = elim (Bool-cases (same k g)) [
  | inl e ↦ let e' = Same-same k h (λ v. same-Same k g e v ∙ s v) in ground arith
  | inr e ↦ ground (arith, Has-Same gs g h (ground arith) s)
]

pub has_group-append :
    (gs hs : List Group) (g : Group) → has_group (gs ++ hs) g ≡ (has_group gs g || has_group hs g)
has_group-append [] hs g = refl
has_group-append (k ∷ gs) hs g = ground (arith, has_group-append gs hs g)

-- What holds of the listed sets holds of one with the same elements.
abbrev pub AllGroups : (Group → Type 0) → List Group → Type 0
AllGroups P [] = Unit
AllGroups P (g ∷ gs) = P g × AllGroups P gs

pub AllGroups-find :
    (P : Group → Type 0) (gs : List Group) (g : Group)
    → AllGroups P gs
    → Has gs g
    → (h : Group) × P h × Same h g
AllGroups-find P [] g all m = cc
AllGroups-find P (k ∷ gs) g all m = elim (Bool-cases (same k g)) [
  | inl e ↦ (k, all.0, same-Same k g e)
  | inr e ↦ AllGroups-find P gs g all.1 (ground arith)
]

pub AllGroups-map :
    (P Q : Group → Type 0) (gs : List Group)
    → ((g : Group) → P g → Q g)
    → AllGroups P gs
    → AllGroups Q gs
AllGroups-map P Q [] f all = tt
AllGroups-map P Q (g ∷ gs) f all = (f g all.0, AllGroups-map P Q gs f all.1)

pub AllGroups-append :
    (P : Group → Type 0) (gs hs : List Group)
    → AllGroups P gs
    → AllGroups P hs
    → AllGroups P (gs ++ hs)
AllGroups-append P [] hs a b = b
AllGroups-append P (g ∷ gs) hs a b = (a.0, AllGroups-append P gs hs a.1 b)

-- No two of its elements are independent.
abbrev pub Compatible : Graph → Group → Type 0
Compatible ind g =
    (a b : ℕ) → In a g → In b g → (a == b) ≡ false → contains (targets ind b) a ≡ false

any-false : (p : ℕ → Bool) (g : Group) (a : ℕ) → any p g ≡ false → In a g → p a ≡ false
any-false p [] a n m = cc
any-false p (x ∷ g) a n m = elim (Bool-cases (x == a)) [
  | inl e ↦ let eq : x ≡ a = (==_iff x a).0 e in subst (λ k. p k ≡ false) eq (ground arith)
  | inr e ↦ any-false p g a (ground arith) (ground arith)
]

any_none : (p : ℕ → Bool) (g : Group) → ((a : ℕ) → In a g → p a ≡ false) → any p g ≡ false
any_none p [] f = refl
any_none p (x ∷ g) f =
    let rest = any_none p g (λ a m. f a (ground arith)) in
    let first : p x ≡ false = f x (ground (arith, ==_refl x)) in rw (first, rest)

pub any-In : (p : ℕ → Bool) (es : List ℕ) (e : ℕ) → In e es → p e ≡ true → any p es ≡ true
any-In p [] e m h = cc
any-In p (x ∷ es) e m h = elim (Bool-cases (x == e)) [
  | inl eq ↦
      let first : p x ≡ true = subst (λ k. p k ≡ true) (sym ((==_iff x e).0 eq)) h in rw first
  | inr ne ↦ ground (arith, any-In p es e (ground arith) h)
]

pub conflicting-Compatible :
    (ind : Graph) (g : Group) → conflicting ind g ≡ false → Compatible ind g
unfolding conflicting
conflicting-Compatible ind g e a b ma mb ne =
    let inner =
      any-false (λ t1. any (λ t2. not (t1 == t2) && contains (targets ind t2) t1) g) g a e ma in
    let test = any-false (λ t2. not (a == t2) && contains (targets ind t2) a) g b inner mb in
    ground arith

pub Compatible-conflicting :
    (ind : Graph) (g : Group) → Compatible ind g → conflicting ind g ≡ false
unfolding conflicting
Compatible-conflicting ind g c =
    any_none (λ t1. any (λ t2. not (t1 == t2) && contains (targets ind t2) t1) g) g
      (λ a ma.
        any_none (λ t2. not (a == t2) && contains (targets ind t2) a) g
          (λ b mb. elim (Bool-cases (a == b)) [ inl e ↦ rw e | inr e ↦ rw (e, c a b ma mb e) ]))

pub Compatible-Same : (ind : Graph) (g h : Group) → Compatible ind g → Same g h → Compatible ind h
Compatible-Same ind g h c s a b ma mb ne = c a b (s a ∙ ma) (s b ∙ mb) ne

pub Compatible-subset :
    (ind : Graph) (g h : Group) → Compatible ind h → ((v : ℕ) → In v g → In v h) → Compatible ind g
Compatible-subset ind g h c f a b ma mb ne = c a b (f a ma) (f b mb) ne

pub meets-In : (g h : Group) (v : ℕ) → In v g → In v h → meets g h ≡ true
meets-In [] h v m k = cc
meets-In (x ∷ g) h v m k = elim (Bool-cases (x == v)) [
  | inl e ↦ let eq : x ≡ v = (==_iff x v).0 e in rw (eq, k)
  | inr e ↦ ground (arith, meets-In g h v (ground arith) k)
]

pub meets-find : (g h : Group) → meets g h ≡ true → (v : ℕ) × In v g × In v h
meets-find [] h m = cc
meets-find (x ∷ g) h m = elim (Bool-cases (contains h x)) [
  | inl e ↦ (x, ground (arith, ==_refl x), e)
  | inr e ↦ let (v, a, b) = meets-find g h (ground arith) in (v, ground arith, b)
]

pub meets-Same : (g h k l : Group) → Same g h → Same k l → meets g k ≡ true → meets h l ≡ true
meets-Same g h k l s t m =
    let (v, a, b) = meets-find g k m in meets-In h l v (sym (s v) ∙ a) (sym (t v) ∙ b)

pub union-Same : (g h k l : Group) → Same g h → Same k l → Same (union g k) (union h l)
union-Same g h k l s t v = ground (arith, contains-union g k v, contains-union h l v, s v, t v)

pub Same_trans : (g h k : Group) → Same g h → Same h k → Same g k
Same_trans g h k s t v = s v ∙ t v

pub Same_sym : (g h : Group) → Same g h → Same h g
Same_sym g h s v = sym (s v)
