-- ===== src/SyncObject/Resources.antt =====
-- Which resources of sw/itc-common/src/itcSyncObject.cc are given back.
use itc_platform.Common.{◌≡◌, arith, true, false, pos}
use itc_platform.SyncObject.{InitCalls, nothing_live, init, reset}

-- An initialisation that completes is undone by `reset`: nothing stays live.
pub reset-init :
    (calls : InitCalls)
    → (init calls).is_initialised ≡ true
    → (reset (init calls)).live ≡ nothing_live
unfolding init reset
reset-init calls e = ground arith

-- After an initialisation that does not complete, `reset` gives nothing back: once the condition
-- attributes are set up, they stay live.
pub reset_incomplete :
    (calls : InitCalls)
    → calls.cond_attr_init ≡ pos 0
    → (init calls).is_initialised ≡ false
    → (reset (init calls) ≡ init calls) × ((reset (init calls)).live.cond_attrs ≡ true)
unfolding init reset
reset_incomplete calls first e = ground arith
