-- ===== src/Push/Select/Installations.antt =====
-- What filterDevicesForMessage keeps: every installation, and which of its devices.
use mathlib.Core.List.{append_assoc, append-nil}
use mgl_communication.Base.{
  String-discrete, subst, String, Bool, true, false, ◌==◌, Option, none, some, List, [], ◌∷◌, ◌++◌,
  Dict, lookup, contains, keep_if, ◌≡◌, refl, sym, ◌∙◌, ap, ◌⊎◌, inl, inr, ◌≢◌, arith, Some, All,
  All-append, All-map, All-keep_if, keep_if-passes, Some-append_left, Some-append_right,
  lookup-insert, contains-append,
}
use mgl_communication.Push.Types.{Device, MessageType, is_call_related}
use mgl_communication.Push.Select.{
  install_key, group_of, Groups, add_device, group_devices, is_voip, is_apns, is_other, takes_all,
  choose, choose_groups, filter_devices_for_message,
}

-- The devices of one installation, in the order of the list.
abbrev pub peers : String → List Device → List Device
peers key = keep_if (λ d. key == install_key d)

group_devices-groups :
    (key : String) (ds : List Device) (g : Groups)
    → group_of (lookup key (group_devices ds g).by_install)
      ≡ group_of (lookup key g.by_install) ++ peers key ds
unfolding group_devices
group_devices-groups key [] g = sym (append-nil _)
group_devices-groups key (d ∷ ds) g =
    group_devices-groups key ds (add_device d g)
    ∙ ground (
      arith,
      lookup-insert key (install_key d) (group_of (lookup (install_key d) g.by_install) ++ d ∷ [])
          g.by_install,
      append_assoc (group_of (lookup key g.by_install)) (d ∷ []) (peers key ds),
    )

has_entry : Option (List Device) → Bool
has_entry none = false
has_entry (some _) = true

-- `order` holds the keys of `byInstall`.
abbrev Ordered : Groups → Type 0
Ordered g = (key : String) → contains key g.order ≡ has_entry (lookup key g.by_install)

add_device-Ordered : (d : Device) (g : Groups) → Ordered g → Ordered (add_device d g)
unfolding add_device has_entry
add_device-Ordered d g o key = ground (
  arith,
  lookup-insert key (install_key d) (group_of (lookup (install_key d) g.by_install) ++ d ∷ [])
      g.by_install,
  o key,
  o (install_key d),
  contains-append key g.order (install_key d ∷ []),
)

group_devices-Ordered : (ds : List Device) (g : Groups) → Ordered g → Ordered (group_devices ds g)
unfolding group_devices
group_devices-Ordered [] g o = o
group_devices-Ordered (d ∷ ds) g o =
    group_devices-Ordered ds (add_device d g) (add_device-Ordered d g o)

append-cons-ne-nil : (xs : List Device) (y : Device) (ys : List Device) → xs ++ y ∷ ys ≢ []
append-cons-ne-nil [] y ys h = cc
append-cons-ne-nil (x ∷ xs) y ys h = cc

-- The choice within an installation takes some device, and none from elsewhere.
choose-nonempty : (incoming : Bool) (d : Device) (ds : List Device) → choose incoming (d ∷ ds) ≢ []
unfolding choose
choose-nonempty true d ds =
    ground (arith, append-cons-ne-nil (keep_if is_apns ds) d (keep_if is_other ds))
choose-nonempty false d ds = ground arith

choose-ne-nil : (incoming : Bool) (ds : List Device) → ds ≢ [] → choose incoming ds ≢ []
choose-ne-nil incoming [] n = absurd (n refl)
choose-ne-nil incoming (d ∷ ds) n = choose-nonempty incoming d ds

keep_if-ne-nil :
    (p : Device → Bool) (ds : List Device) → Some (λ d. p d ≡ true) ds → keep_if p ds ≢ []
keep_if-ne-nil p [] h e = absurd h
keep_if-ne-nil p (d ∷ ds) (inl q) e = ground arith
keep_if-ne-nil p (d ∷ ds) (inr r) e = ground (arith, keep_if-ne-nil p ds r)

choose-All :
    (P : Device → Type 0) (incoming : Bool) (ds : List Device)
    → All P ds
    → All P (choose incoming ds)
unfolding choose
choose-All P incoming ds a = ground (
  arith,
  All-keep_if P is_voip ds a,
  All-keep_if P is_apns ds a,
  All-keep_if P is_other ds a,
  All-append P (keep_if is_apns ds) (keep_if is_other ds),
)

Some-of_nonempty : (P : Device → Type 0) (xs : List Device) → xs ≢ [] → All P xs → Some P xs
Some-of_nonempty P [] n a = absurd (n refl)
Some-of_nonempty P (x ∷ xs) n a = inl a.0

choose_groups-Some :
    (P : Device → Type 0) (incoming : Bool) (m : Dict (List Device)) (key : String)
    (order : List String)
    → contains key order ≡ true
    → Some P (choose incoming (group_of (lookup key m)))
    → Some P (choose_groups incoming m order)
unfolding choose_groups
choose_groups-Some P incoming m key [] h s = cc
choose_groups-Some P incoming m key (k ∷ order) h s = elim (String-discrete key k) [
  | yes e ↦
      Some-append_left P (choose incoming (group_of (lookup k m))) (choose_groups incoming m order)
        (subst (λ j. Some P (choose incoming (group_of (lookup j m)))) e s)
  | no n ↦
      Some-append_right P (choose incoming (group_of (lookup k m))) (choose_groups incoming m order)
        (choose_groups-Some P incoming m key order (ground arith) s)
]

choose_groups-All :
    (P : Device → Type 0) (incoming : Bool) (m : Dict (List Device)) (order : List String)
    → ((key : String) → All P (choose incoming (group_of (lookup key m))))
    → All P (choose_groups incoming m order)
unfolding choose_groups
choose_groups-All P incoming m [] h = tt
choose_groups-All P incoming m (k ∷ order) h =
    All-append P (choose incoming (group_of (lookup k m))) (choose_groups incoming m order) (h k)
      (choose_groups-All P incoming m order h)

abbrev no_groups : Groups
no_groups = record { by_install = []; order = [] }

group_is_peers :
    (key : String) (ds : List Device)
    → group_of (lookup key (group_devices ds no_groups).by_install) ≡ peers key ds
unfolding lookup
group_is_peers key ds = group_devices-groups key ds no_groups

no_groups-Ordered : Ordered no_groups
unfolding lookup has_entry
no_groups-Ordered key = refl

peers-All : (key : String) (ds : List Device) → All (λ d. install_key d ≡ key) (peers key ds)
peers-All key [] = tt
peers-All key (d ∷ ds) = ground (arith, peers-All key ds)

peers-nonempty :
    (d : Device) (ds : List Device) → Some (λ e. e ≡ d) ds → peers (install_key d) ds ≢ []
peers-nonempty d [] h e = absurd h
peers-nonempty d (x ∷ xs) (inl q) e = ground (arith, ap install_key q)
peers-nonempty d (x ∷ xs) (inr r) e = ground (arith, peers-nonempty d xs r)

Ordered-of_nonempty :
    (key : String) (g : Groups)
    → Ordered g
    → group_of (lookup key g.by_install) ≢ []
    → contains key g.order ≡ true
unfolding has_entry
Ordered-of_nonempty key g o n = ground (arith, o key)

-- No installation is dropped: for each device of the list, filterDevicesForMessage keeps some
-- device of the same installation.
pub filter_devices-serves :
    (ds : List Device) (type : MessageType) (d : Device)
    → Some (λ e. e ≡ d) ds
    → Some (λ e. install_key e ≡ install_key d) (filter_devices_for_message ds type)
unfolding filter_devices_for_message
filter_devices-serves ds type d h =
    let key = install_key d in
    let g = group_devices ds no_groups in
    let same = group_is_peers key ds in
    let listed =
      Ordered-of_nonempty key g (group_devices-Ordered ds no_groups no_groups-Ordered)
        (rw same (peers-nonempty d ds h)) in
    choose_groups-Some (λ e. install_key e ≡ key) (is_call_related type) g.by_install key g.order
      listed
      (rw same (
        Some-of_nonempty _ _
          (choose-ne-nil (is_call_related type) (peers key ds) (peers-nonempty d ds h))
          (choose-All _ (is_call_related type) (peers key ds) (peers-All key ds))))

-- The kind of token that a message prefers on iOS: VoIP for the messages about calls, else APNs.
abbrev pub is_preferred : Bool → Device → Bool
is_preferred true d = is_voip d
is_preferred false d = is_apns d

choose-preferred :
    (incoming : Bool) (ds : List Device)
    → takes_all ds ≡ false
    → Some (λ d. is_preferred incoming d ≡ true) ds
    → All (λ d. is_preferred incoming d ≡ true) (choose incoming ds)
unfolding choose
choose-preferred true ds t h =
    ground (arith, keep_if-passes is_voip ds, keep_if-ne-nil is_voip ds h)
choose-preferred false ds t h =
    ground (arith, keep_if-passes is_apns ds, keep_if-ne-nil is_apns ds h)

-- If an installation has several devices, the first of them on iOS, and some with the kind of
-- token that the message prefers (VoIP for the messages about calls, APNs for the others), then
-- filterDevicesForMessage keeps of this installation only devices with that kind of token.
pub filter_devices-prefers :
    (ds : List Device) (type : MessageType) (key : String)
    → takes_all (peers key ds) ≡ false
    → Some (λ d. is_preferred (is_call_related type) d ≡ true) (peers key ds)
    → All
        (λ d. (install_key d ≢ key) ⊎ (is_preferred (is_call_related type) d ≡ true))
        (filter_devices_for_message ds type)
unfolding filter_devices_for_message
filter_devices-prefers ds type key t h =
    choose_groups-All _ (is_call_related type) (group_devices ds no_groups).by_install
      (group_devices ds no_groups).order
      λ k. rw (group_is_peers k ds) (elim (String-discrete k key) [
        | yes e ↦
            subst
              (λ j.
                All (λ d. (install_key d ≢ key) ⊎ (is_preferred (is_call_related type) d ≡ true))
                  (choose (is_call_related type) (peers j ds)))
              (sym e)
              (All-map (λ d. is_preferred (is_call_related type) d ≡ true)
                (λ d. (install_key d ≢ key) ⊎ (is_preferred (is_call_related type) d ≡ true))
                (choose (is_call_related type) (peers key ds)) (λ d q. inr q)
                (choose-preferred (is_call_related type) (peers key ds) t h))
        | no n ↦
            All-map (λ d. install_key d ≡ k) _ (choose (is_call_related type) (peers k ds))
              (λ d q. inl (λ r. n (sym q ∙ r)))
              (choose-All _ (is_call_related type) (peers k ds) (peers-All k ds))
      ])
