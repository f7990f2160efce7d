-- ===== src/Spec/Censor/Laws.antt =====
-- `CensorForDevice` of spec/spec.go under the lookups by name.
use qrystal.Prelude.{
  ◌≡◌, ap, sym, ◌∙◌, inl, inr, Bool, true, Option, none, some, List, [], ◌∷◌, map, arith, ◌==◌,
  ==_iff, list_eq, nat_eq, at_index-index_func, find_func, filter_by, Bool-cases,
}
use mathlib.Core.Option.{some-injective}
use qrystal.Text.{Bytes}
use qrystal.Spec.{
  NetworkDeviceCensored, NetworkDevice, Network, NetworkCensored, get_device, get_device_censored,
}
use qrystal.Spec.Censor.{can_access, view_for, censor_for_device}

abbrev pub shown : Bool → Option NetworkDevice → Option NetworkDeviceCensored
shown true (some d) = some d.censored
shown _ _ = none

find_func-shown :
    (p : Bytes → Bool) (x : Bytes) (ds : List NetworkDevice)
    → find_func (λ d. d.name == x) (map (λ nd. nd.censored) (filter_by (λ nd. p nd.name) ds))
      ≡ shown (p x) (find_func (λ d. d.name == x) ds)
find_func-shown p x [] = ground arith
find_func-shown p x (d ∷ ds) = elim (Bool-cases (d.name == x)) [
  | inl h ↦ ground (arith, ap p ((==_iff d.name x).0 h), find_func-shown p x ds)
  | inr h ↦ ground (arith, find_func-shown p x ds)
]

get_device-view_for :
    (n : Network) (viewer : NetworkDevice) (name x : Bytes)
    → get_device_censored (view_for n viewer name) x
      ≡ shown (can_access viewer.access x) (get_device n x)
unfolding get_device_censored view_for get_device
get_device-view_for n viewer name x =
    at_index-index_func _ (view_for n viewer name).devices
    ∙ find_func-shown (can_access viewer.access) x n.devices
    ∙ ap (shown (can_access viewer.access x)) (sym (at_index-index_func _ n.devices))

pub censor_for_device-eq :
    (n : Network) (name : Bytes) (viewer : NetworkDevice)
    → get_device n name ≡ some viewer
    → censor_for_device n name ≡ some (view_for n viewer name)
unfolding censor_for_device
censor_for_device-eq n name viewer h = rw (h, censor_for_device)

-- Looking a device up in the view gives the specification's record of it where the viewer may
-- access it, and nothing where it may not.
pub get_device-censor_for_device :
    (n : Network) (name : Bytes) (viewer : NetworkDevice) (nc : NetworkCensored) (x : Bytes)
    → get_device n name ≡ some viewer
    → censor_for_device n name ≡ some nc
    → get_device_censored nc x ≡ shown (can_access viewer.access x) (get_device n x)
get_device-censor_for_device n name viewer nc x h k =
    ap (λ v. get_device_censored v x)
      (some-injective _ _ (sym k ∙ censor_for_device-eq n name viewer h))
    ∙ get_device-view_for n viewer name x
