-- ===== src/Base/Singleton/Destroyed.antt =====
-- base/singleton.h: `instance` and `destory` in turn, on one thread.
use libra_core.Common.{ℕ, ◌≡◌, refl, true, false, some, none, ◌>>◌, done, fault}
use libra_core.Base.Singleton.{destory, instance_alone, use_instance}

-- Before an object is there, `destory` does nothing, and `instance` answers one that can be used. Once
-- `destory` has deleted it, `instance` answers the deleted object, and both its use and a second
-- `destory` are faults.
destory_lem :
    (p : ℕ)
    → ((do destory; use_instance) (none, false) ≡ (done tt, (some 0, true)))
      × ((do destory; instance_alone) (some p, true) ≡ (done p, (some p, false)))
      × (((do destory; use_instance) (some p, true)).0 ≡ fault)
      × (((do destory; destory) (some p, true)).0 ≡ fault)
unfolding destory use_instance instance_alone
destory_lem p = (refl, refl, refl, refl)
