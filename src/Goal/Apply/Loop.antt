-- ===== src/Goal/Apply/Loop.antt =====
-- goal/apply_linux.go: the loops of `ApplyMachine` over names.
use qrystal.Prelude.{
  ◌≡◌, refl, ap, ◌∙◌, Bool, true, false, none, some, List, [], ◌∷◌, map, arith, ◌==◌, ==_iff,
  list_eq, nat_eq, contains, IsDistinct, find_func, at_index-index_func, Outcome, ok, failed,
  panicked, Option, Bool-cases, inl, inr, subst, sym, ℕ, if◌then◌else◌, bump, index_func,
  find_func-test,
}
use qrystal.Text.{Bytes}
use qrystal.Goal.Machine.{Interface}
use qrystal.Goal.Apply.{name_of, each_interface, put_interface}

-- The interface of a name: the first that has it.
abbrev pub IsNamed : List Interface → Bytes → Interface → Type 0
IsNamed interfaces name iface = find_func (λ i. i.name == name) interfaces ≡ some iface

pub named :
    (interfaces : List Interface) (name : Bytes)
    → contains (map name_of interfaces) name ≡ true
    → (iface : Interface) × IsNamed interfaces name iface
named [] name h = absurd (ground arith)
named (x ∷ interfaces) name h = elim (Bool-cases (x.name == name)) [
  | inl e ↦ (x, rw e refl)
  | inr e ↦ let (iface, q) = named interfaces name (ground arith) in (iface, rw e q)
]

-- Writing back at the index of a name, an interface of that name, changes what that name finds.
find_func-put_interface :
    (interfaces : List Interface) (name : Bytes) (iface left : Interface) (y : Bytes)
    → IsNamed interfaces name iface
    → (left.name == name) ≡ true
    → find_func
        (λ i. i.name == y)
        (put_interface interfaces (index_func (λ i. i.name == name) interfaces) left)
      ≡ (if name == y then some left else find_func (λ i. i.name == y) interfaces)
find_func-put_interface [] name iface left y h same = absurd (ground arith)
find_func-put_interface (x ∷ interfaces) name iface left y h same =
    elim (Bool-cases (x.name == name)) [
      | inl e ↦ ground (arith, ==_iff x.name name, ==_iff left.name name, ==_iff name y)
      | inr e ↦ rw e (
          put_behind (index_func (λ i. i.name == name) interfaces)
            (find_func-put_interface interfaces name iface left y (ground arith) same) e)
    ]
  where
    put_behind :
        (i : Option ℕ)
        → find_func (λ i. i.name == y) (put_interface interfaces i left)
          ≡ (if name == y then some left else find_func (λ i. i.name == y) interfaces)
        → (x.name == name) ≡ false
        → find_func (λ i. i.name == y) (put_interface (x ∷ interfaces) (bump i) left)
          ≡ (if name == y then some left else find_func (λ i. i.name == y) (x ∷ interfaces))
    put_behind none ih e = ground (arith, ==_iff x.name y, ==_iff name y, ==_iff x.name name)
    put_behind (some i) ih e = ground (arith, ==_iff x.name y, ==_iff name y, ==_iff x.name name)

module _ {K : Type 0} (f : Interface → K → (Bool × K) × Interface)
    (interfaces : List Interface) where
  each_interface-cons :
      (name : Bytes) (names : List Bytes) (iface left : Interface) (k k2 : K)
      → IsNamed interfaces name iface
      → f iface k ≡ ((true, k2), left)
      → each_interface f interfaces (name ∷ names) k
        ≡ each_interface f
            (put_interface interfaces (index_func (λ i. i.name == name) interfaces) left)
            names
            k2
  unfolding each_interface
  each_interface-cons name names iface left k k2 h q =
      let at = index_func (λ (i : Interface). i.name == name) interfaces in
      ap
        (λ (r : Option Interface). elim r as (λ _. (Outcome Bool × K) × List Interface) [
          | none ↦ ((panicked, k), interfaces)
          | some i ↦ elim (f i k).0.0 as (λ _. (Outcome Bool × K) × List Interface) [
            | true ↦ each_interface f (put_interface interfaces at (f i k).1) names (f i k).0.1
            | false ↦ ((failed, (f i k).0.1), put_interface interfaces at (f i k).1)
          ]
        ])
        (at_index-index_func (λ (i : Interface). i.name == name) interfaces ∙ h)
      ∙ ap
          (λ (r : (Bool × K) × Interface).
            elim r.0.0 as (λ _. (Outcome Bool × K) × List Interface) [
              | true ↦ each_interface f (put_interface interfaces at r.1) names r.0.1
              | false ↦ ((failed, r.0.1), put_interface interfaces at r.1)
            ])
          q

-- A pass of the loop at a name that is to be done, where `v` is a view of what each name stands for:
-- it succeeds and is done, what other names stand for is left as it was, and so is the interface,
-- but for what `g` makes of it, which keeps its name.
abbrev pub Passes :
    {K D : Type 0}
    → (K → Bytes → D)
    → (Interface → K → (Bool × K) × Interface)
    → (Interface → Interface)
    → List Interface
    → (Todo Done : Bytes → D → Type 0) → Type 0
Passes {K} v f g interfaces Todo Done =
    (name : Bytes) (iface : Interface) (k : K)
    → IsNamed interfaces name iface
    → Todo name (v k name)
    → (k2 : K) × (f iface k ≡ ((true, k2), g iface))
      × ((g iface).name ≡ iface.name)
      × Done name (v k2 name)
      × ((y : Bytes) → (name == y) ≡ false → v k2 y ≡ v k y)

-- What a name finds behind the loop.
abbrev pub found_after : (Interface → Interface) → Bool → Option Interface → Option Interface
found_after g true (some iface) = some (g iface)
found_after g _ found = found

found_lem :
    (g : Interface → Interface) (name : Bytes) (names : List Bytes) (iface : Interface)
    (now : List Interface)
    → IsNamed now name iface
    → contains names name ≡ false
    → (y : Bytes)
    → found_after g
        (contains names y)
        (if name == y then some (g iface) else find_func (λ i. i.name == y) now)
      ≡ found_after g (contains (name ∷ names) y) (find_func (λ i. i.name == y) now)
found_lem g name names iface now at d y = elim (Bool-cases (name == y)) [
  | inl e ↦
      subst
        (λ z.
          found_after g (contains names z)
            (if name == z then some (g iface) else find_func (λ i. i.name == z) now)
          ≡ found_after g (contains (name ∷ names) z) (find_func (λ i. i.name == z) now))
        ((==_iff name y).0 e)
        (let test : (name == name) ≡ true = (==_iff name name).1 refl in rw (test, d, at) refl)
  | inr e ↦ rw e refl
]

found_next :
    (g : Interface → Interface) (name : Bytes) (names : List Bytes) (iface : Interface)
    (now : List Interface)
    → IsNamed now name iface
    → contains names name ≡ false
    → (y : Bytes) (put left : Option Interface)
    → put ≡ (if name == y then some (g iface) else find_func (λ i. i.name == y) now)
    → left ≡ found_after g (contains names y) put
    → left ≡ found_after g (contains (name ∷ names) y) (find_func (λ i. i.name == y) now)
found_next g name names iface now at d y put left h finds =
    finds ∙ (ap (found_after g (contains names y)) h ∙ found_lem g name names iface now at d y)

module _ {K D : Type 0} (v : K → Bytes → D) (f : Interface → K → (Bool × K) × Interface)
    (g : Interface → Interface) (interfaces : List Interface) (Todo Done : Bytes → D → Type 0)
    (passes : Passes v f g interfaces Todo Done) where
  -- Over different names of interfaces, all of them to be done and as in the list of the passes, the
  -- loop comes to its end, all are done then, and what other names stand for is left as it was.
  pub each_interface-done :
      (names : List Bytes) (now : List Interface) (k : K)
      → IsDistinct names
      → ((y : Bytes) → contains names y ≡ true → contains (map name_of interfaces) y ≡ true)
      → ((y : Bytes)
          → contains names y ≡ true
          → find_func (λ i. i.name == y) now ≡ find_func (λ i. i.name == y) interfaces)
      → ((y : Bytes) → contains names y ≡ true → Todo y (v k y))
      → (k2 : K) × (left : List Interface) × (each_interface f now names k ≡ ((ok true, k2), left))
        × ((y : Bytes) → contains names y ≡ true → Done y (v k2 y))
        × ((y : Bytes) → contains names y ≡ false → v k2 y ≡ v k y)
        × ((y : Bytes)
            → find_func (λ i. i.name == y) left
              ≡ found_after g (contains names y) (find_func (λ i. i.name == y) now))
  unfolding each_interface
  each_interface-done [] now k d known same todo =
      (k, now, refl, λ y h. absurd (ground arith), λ y h. refl, λ y. refl)
  each_interface-done (name ∷ names) now k d known same todo =
      let here : contains (name ∷ names) name ≡ true = ground (arith, ==_iff name name) in
      let (iface, at) = named interfaces name (known name here) in
      let (k1, p, keeps, done, other) = passes name iface k at (todo name here) in
      let now_at : IsNamed now name iface = same name here ∙ at in
      let test : ((g iface).name == name) ≡ true =
        ap (λ n. n == name) keeps
        ∙ find_func-test (λ (i : Interface). i.name == name) interfaces iface at in
      let now1 = put_interface now (index_func (λ (i : Interface). i.name == name) now) (g iface) in
      let put = λ (y : Bytes). find_func-put_interface now name iface (g iface) y now_at test in
      let (k2, left, q, all, kept, finds) =
        each_interface-done names now1 k1 d.1 (λ y h. known y (ground arith))
          (λ y h. ground (arith, put y, same y, d.0, ==_iff name y))
          (λ y h.
            subst (λ (x : D). Todo y x) (sym (other y (ground (arith, d.0, ==_iff name y))))
              (todo y (ground arith))) in
      (
        k2,
        left,
        each_interface-cons f now name names iface (g iface) k k1 now_at p ∙ q,
        λ y h. all_done y h k1 k2 done all kept,
        λ y h. kept y (ground arith) ∙ other y (ground arith),
        λ y. found_next g name names iface now now_at d.0 y _ _ (put y) (finds y),
      )
    where
      all_done :
          (y : Bytes)
          → contains (name ∷ names) y ≡ true
          → (k1 k2 : K) → Done name (v k1 name)
          → ((x : Bytes) → contains names x ≡ true → Done x (v k2 x))
          → ((x : Bytes) → contains names x ≡ false → v k2 x ≡ v k1 x)
          → Done y (v k2 y)
      all_done y h k1 k2 done all kept = elim (Bool-cases (contains names y)) [
        | inl e ↦ all y e
        | inr e ↦
            let same : name ≡ y = (==_iff name y).0 (ground arith) in
            subst (λ (x : D). Done y x) (sym (kept y e))
              (subst (λ (x : Bytes). Done x (v k1 x)) same done)
      ]
