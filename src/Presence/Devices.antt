-- ===== src/Presence/Devices.antt =====
-- What a write of one device shows for its user and for the other users.
use native.Mathlib.Nat.{le_refl}
use mgl_communication.Base.{
  ℕ, ◌≡◌, ◌≤◌, refl, inl, inr, String, List, [], ◌∷◌, All, arith, ◌==◌, some, lookup, lookup-insert,
  contains, add_member, contains-add_member, Dict, true, false, ◌≢◌, live, insert, if◌then◌else◌,
}
use mgl_communication.Presence.{
  DevicePresence, Store, rank, aggregate, offline, collect, device_ids, user_key, write_device,
  update, set_online, set_status, get_user,
}
use mgl_communication.Presence.Aggregate.{SomeDevice, aggregate-highest}

abbrev written : String → String → String → String → ℕ → DevicePresence
written app_id user_id device_id status now = record {
  device_id = device_id;
  user_id = user_id;
  app_id = app_id;
  status = status;
  updated_at = now;
}

module _ (app_id user_id device_id status : String) (now : ℕ) (s : Store) where
  lookup-write_device :
      (id : String)
      → lookup id (write_device app_id user_id device_id status now s).devices ≡ (
          if id == device_id
          then some (written app_id user_id device_id status now)
          else lookup id s.devices)
  unfolding write_device
  lookup-write_device id = lookup-insert id device_id _ s.devices

  contains-write_device :
      (app' user' id : String)
      → contains id (device_ids app' user' (write_device app_id user_id device_id status now s)) ≡ (
          if user_key app' user' == user_key app_id user_id
          then (if id == device_id then true else contains id (device_ids app' user' s))
          else contains id (device_ids app' user' s))
  unfolding write_device
  contains-write_device app' user' id = ground (
    arith,
    lookup-insert (user_key app' user') (user_key app_id user_id)
        (add_member device_id (device_ids app_id user_id s)) s.by_user,
    contains-add_member device_id id (device_ids app_id user_id s),
  )

collect-SomeDevice :
    (P : DevicePresence → Type 0) (devices : Dict DevicePresence) (ids : List String) (id : String)
    {d : DevicePresence}
    → contains id ids ≡ true
    → lookup id devices ≡ some d
    → P d
    → SomeDevice P (collect devices ids)
unfolding collect
collect-SomeDevice P devices [] id h e p = cc
collect-SomeDevice P devices (j ∷ ids) id {d} h e p =
    ground (arith, collect-SomeDevice P devices ids id {d = d})

SomeDevice-rank :
    (n : ℕ) (ds : List DevicePresence)
    → SomeDevice (λ d. n ≤ rank d.status) ds
    → All (λ d. rank d.status ≤ rank (aggregate offline ds)) ds
    → n ≤ rank (aggregate offline ds)
SomeDevice-rank n ds x a = within n (rank (aggregate offline ds)) ds x a
  where
    within :
        (n m : ℕ) (ds : List DevicePresence)
        → SomeDevice (λ d. n ≤ rank d.status) ds
        → All (λ d. rank d.status ≤ m) ds
        → n ≤ m
    within n m [] x a = absurd x
    within n m (d ∷ ds) (inl p) a = omega arith
    within n m (d ∷ ds) (inr q) a = within n m ds q a.1

collect-insert_other :
    (device_id : String) (v : DevicePresence) (devices : Dict DevicePresence) (ids : List String)
    → contains device_id ids ≡ false
    → collect (insert device_id v devices) ids ≡ collect devices ids
unfolding collect
collect-insert_other device_id v devices [] h = refl
collect-insert_other device_id v devices (id ∷ ids) h =
    ground
      (arith, lookup-insert id device_id v devices, collect-insert_other device_id v devices ids)

-- The device is among those shown for whoever had it before.
write_device-seen :
    (app_id user_id device_id status : String) (now : ℕ) (s : Store) (app' user' : String)
    (P : DevicePresence → Type 0)
    → contains device_id (device_ids app' user' s) ≡ true
    → P (written app_id user_id device_id status now)
    → let s' = write_device app_id user_id device_id status now s in
      SomeDevice P (collect s'.devices (device_ids app' user' s'))
write_device-seen app_id user_id device_id status now s app' user' P h p =
    collect-SomeDevice P _ _ device_id
      (ground
        (arith, contains-write_device app_id user_id device_id status now s app' user' device_id))
      (ground (arith, lookup-write_device app_id user_id device_id status now s device_id)) p

-- The device is among those shown for its user.
write_device-shown :
    (app_id user_id device_id status : String) (now : ℕ) (s : Store) (P : DevicePresence → Type 0)
    → P (written app_id user_id device_id status now)
    → let s' = write_device app_id user_id device_id status now s in
      SomeDevice P (collect s'.devices (device_ids app_id user_id s'))
write_device-shown app_id user_id device_id status now s P p =
    collect-SomeDevice P _ _ device_id
      (ground (
        arith,
        contains-write_device app_id user_id device_id status now s app_id user_id device_id,
      ))
      (ground (arith, lookup-write_device app_id user_id device_id status now s device_id)) p

-- After SetStatus in a live context a read of the user finds the presence that was returned; it
-- shows the device with its owner and the new status, and the status of the user ranks at least
-- as high as the new one.
pub set_status-shown :
    (app_id user_id device_id status : String) (now : ℕ) (s : Store)
    → let r = set_status live app_id user_id device_id status now s in
      (get_user live app_id user_id now r.0 ≡ r.1)
      × SomeDevice
          (λ d. (d.device_id ≡ device_id) × (d.user_id ≡ user_id) × (d.status ≡ status))
          r.1.devices
      × (rank status ≤ rank r.1.status)
unfolding set_status update get_user
set_status-shown app_id user_id device_id status now s =
    let P : DevicePresence → Type 0 = λ d. rank status ≤ rank d.status in
    (
      refl,
      write_device-shown app_id user_id device_id status now s _ (refl, refl, refl),
      SomeDevice-rank (rank status) _
          (write_device-shown app_id user_id device_id status now s P (le_refl (rank status)))
          (aggregate-highest _).0,
    )

-- A SetStatus in a live context does not change what is read of a user with another app|user key
-- who did not have the device.
pub set_status-isolated :
    (app_id user_id device_id status app' user' : String) (now at : ℕ) (s : Store)
    → user_key app' user' ≢ user_key app_id user_id
    → contains device_id (device_ids app' user' s) ≡ false
    → get_user live app' user' at (set_status live app_id user_id device_id status now s).0
      ≡ get_user live app' user' at s
unfolding set_status update get_user write_device
set_status-isolated app_id user_id device_id status app' user' now at s n free =
    let same_ids =
      lookup-insert (user_key app' user') (user_key app_id user_id)
        (add_member device_id (device_ids app_id user_id s)) s.by_user in
    ground (
      arith,
      same_ids,
      collect-insert_other device_id (written app_id user_id device_id status now) s.devices
          (device_ids app' user' s),
    )

-- After a device came online for one user and then for a second one of the same app, the first
-- user is still read as at least online, by a device that belongs to the second.
pub moved_device :
    (app_id first second device_id : String) (t now at : ℕ) (s : Store)
    → let s' =
        (set_online live app_id second device_id now
          (set_online live app_id first device_id t s).0).0 in
      let up = get_user live app_id first at s' in
      (rank "online" ≤ rank up.status)
      × SomeDevice (λ d. (d.device_id ≡ device_id) × (d.user_id ≡ second)) up.devices
unfolding set_online update get_user
moved_device app_id first second device_id t now at s =
    let s1 = (set_online live app_id first device_id t s).0 in
    let had : contains device_id (device_ids app_id first s1) ≡ true =
      ground
        (arith, contains-write_device app_id first device_id "online" t s app_id first device_id) in
    let P : DevicePresence → Type 0 = λ d. rank "online" ≤ rank d.status in
    (
      SomeDevice-rank (rank "online") _
          (write_device-seen app_id second device_id "online" now s1 app_id first P had
            (le_refl (rank "online")))
          (aggregate-highest _).0,
      write_device-seen app_id second device_id "online" now s1 app_id first _ had (refl, refl),
    )
