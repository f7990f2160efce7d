-- ===== src/Spec/Compile/Laws.antt =====
-- `CompileMachine` of spec/compile.go, for a specification whose names and indices lead somewhere.
use qrystal.Prelude.{
  index_func, find_func, ◌⊎◌, ℕ, suc, ◌≡◌, refl, ap, ◌∙◌, sym, Bool, true, false, Option, none,
  some, List, [], ◌∷◌, ◌++◌, ◌==◌, list_eq, nat_eq, arith, append-nil, get_elem?, length, ok, inl,
  inr, Bool-cases,
}
use qrystal.Text.{Bytes}
use qrystal.Goal.Machine.{Interface, Machine}
use qrystal.Spec.{NetworkDeviceCensored, NetworkCensored, SpecCensored}
use qrystal.Spec.Compile.{compile_network, compile_loop, compile_machine}
use qrystal.Spec.Compile.Expected.{AreIndexed, AreKnown}
use qrystal.Spec.Compile.Forwards.{append_assoc}
use qrystal.Spec.Compile.Networks.{interface_of, compile_network-interface_of}

find_func-cases {ℓ} :
    {A : Type ℓ} (p : A → Bool) (xs : List A)
    → (index_func p xs ≡ none)
      ⊎ ((i : ℕ) × (x : A) × (index_func p xs ≡ some i)
          × (get_elem? xs i ≡ some x)
          × (find_func p xs ≡ some x))
find_func-cases p [] = inl refl
find_func-cases p (x ∷ xs) = elim (Bool-cases (p x)) [
  | inl e ↦ inr (0, x, ground arith, refl, ground arith)
  | inr e ↦ elim (find_func-cases p xs) [
    | inl q ↦ inl (ground arith)
    | inr (i, y, q, g, k) ↦ inr (suc i, y, ground arith, g, ground arith)
  ]
]

-- The device called `name` and its index, in a network that has it.
abbrev pub place_of : Bytes → NetworkCensored → Option ℕ
place_of name sn = index_func (λ snd. snd.name == name) sn.devices

abbrev pub add_interface : NetworkCensored → Option ℕ → List Interface → List Interface
add_interface sn none interfaces = interfaces
add_interface sn (some i) interfaces = elim (get_elem? sn.devices i) [
  | none ↦ interfaces
  | some snd ↦ interface_of sn i snd ∷ interfaces
]

abbrev pub interfaces_of : Bytes → List NetworkCensored → List Interface
interfaces_of name [] = []
interfaces_of name (sn ∷ rest) = add_interface sn (place_of name sn) (interfaces_of name rest)

-- The chosen indices are in range, and the devices that the device called `name` forwards for are
-- there.
abbrev pub AreCompilable : Bytes → List NetworkCensored → Type 0
AreCompilable name [] = Unit
AreCompilable name (sn ∷ rest) =
    AreIndexed (length sn.devices) sn.devices
    × ((snd : NetworkDeviceCensored)
        → find_func (λ d. d.name == name) sn.devices ≡ some snd
        → AreKnown sn snd.accessible)
    × AreCompilable name rest

module _ (name : Bytes) (sn : NetworkCensored) (rest : List NetworkCensored) (gm : Machine) where
  compile_loop-skip :
      place_of name sn ≡ none
      → compile_loop name true (sn ∷ rest) gm ≡ compile_loop name true rest gm
  unfolding compile_loop
  compile_loop-skip e = ground arith

  compile_loop-take :
      (i : ℕ) (snd : NetworkDeviceCensored) (more : Machine)
      → place_of name sn ≡ some i
      → get_elem? sn.devices i ≡ some snd
      → compile_network true sn i snd gm ≡ ok more
      → compile_loop name true (sn ∷ rest) gm ≡ compile_loop name true rest more
  unfolding compile_loop
  compile_loop-take i snd more e g p = ground arith

compile_loop-interfaces_of :
    (name : Bytes) (networks : List NetworkCensored) (gm : Machine)
    → AreCompilable name networks
    → (more : Machine) × (compile_loop name true networks gm ≡ ok more)
      × (more.interfaces ≡ gm.interfaces ++ interfaces_of name networks)
unfolding compile_loop
compile_loop-interfaces_of name [] gm h = (gm, refl, sym (append-nil gm.interfaces))
compile_loop-interfaces_of name (sn ∷ rest) gm (indexed, known, compilable) =
    elim (find_func-cases (λ d. d.name == name) sn.devices) [
      | inl e ↦
          let (more, p, q) = compile_loop-interfaces_of name rest gm compilable in
          (
            more,
            compile_loop-skip name sn rest gm e ∙ p,
            q ∙ ap (λ o. gm.interfaces ++ add_interface sn o (interfaces_of name rest)) (sym e),
          )
      | inr (i, snd, e, g, k) ↦
          let (one, p, q) = compile_network-interface_of sn i snd gm indexed (known snd k) in
          let (more, r, t) = compile_loop-interfaces_of name rest one compilable in
          (
            more,
            compile_loop-take name sn rest gm i snd one e g p ∙ r,
            ground (
              arith,
              append_assoc gm.interfaces (interface_of sn i snd ∷ []) (interfaces_of name rest),
            ),
          )
    ]

-- `CompileMachine`, told to pass over incomplete devices, returns a machine for a specification
-- whose chosen indices are in range and whose forwarded devices are there, and it has one interface
-- for each network with the device: its peers are the other devices with a key that are not reached
-- through a forwarder, each allowed its own addresses and then those of the devices with a key that
-- are reached through it.
pub compile_machine-interfaces_of :
    (sc : SpecCensored) (name : Bytes)
    → AreCompilable name sc.networks
    → (gm : Machine) × (compile_machine sc name true ≡ ok gm)
      × (gm.interfaces ≡ interfaces_of name sc.networks)
unfolding compile_machine
compile_machine-interfaces_of sc name h =
    compile_loop-interfaces_of name sc.networks
      (record { interfaces = []; forwards_ipv4 = false; forwards_ipv6 = false }) h
