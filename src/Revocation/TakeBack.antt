-- ===== src/Revocation/TakeBack.antt =====
-- Revoking a capability that was delegated once.
use caprese.Common.{
  ℕ, suc, ◌<◌, ◌≡◌, ◌≢◌, refl, ◌∙◌, ap, Bool, true, false, some, List, ◌∷◌, ◌==◌, if◌then◌else◌,
  arith, length, ==-false, ==-refl,
}
use caprese.Config.{word}
use caprese.Cap.{CapType, Capability, is_cap}
use caprese.Chain.{has, frame, ne_of_has}
use caprese.Kernel.{
  Kernel, CapSlot, ok, and_then, Ensures, Ensures-bind, get_slot, set_cap, with_cap, get_meta_info,
}
use caprese.CapSlot.{get_cap_space, erase_this, live_owner}
use caprese.CapSlot.Fields.{cap-with_cap, prev-with_cap, next-with_cap}
use caprese.CapSlot.Links.{
  HasOwner, erased_slots, erase_this_ok, live_owner_ok, cap-erased, prev-erased, next-erased,
}
use caprese.CapSlot.Chains.{prev_slot, next_slot}
use caprese.Object.{skip_zombies}
use caprese.Task.{push_free_slots}
use caprese.Task.Slots.{IsFreeList}
use caprese.Task.FreeStack.{CanPush, push_free_slots-IsFreeList}
use caprese.CapSpace.{owning_task}
use caprese.Ipc.{MessageLayout}
use caprese.Revocation.{revoke_cap, free_down}

-- `src` was delegated once: the capability is in `dst`, in a space of `task`, whose free slots are `xs`.
pub record IsDelegated (k : Kernel) (src dst task : ℕ) (xs : List ℕ) : Type 0 where
  pub src_set : src ≢ 0
  pub dst_set : dst ≢ 0
  pub apart : src ≢ dst
  pub given : (k.slots src).cap ≡ Capability.zombie
  pub kept : is_cap CapType.zombie (k.slots dst).cap ≡ false
  pub next_is : (k.slots src).next ≡ dst
  pub prev_is : (k.slots dst).prev ≡ src
  pub src_owner : HasOwner k src
  pub dst_owner : HasOwner k dst
  pub task_set : task ≢ 0
  pub of_task : (k.spaces (get_cap_space dst)).task ≡ task
  pub free : IsFreeList k task xs
  pub room : suc (length xs) < word
  pub src_used : has src xs ≡ false
  pub dst_used : has dst xs ≡ false
  pub next_used : has (k.slots dst).next xs ≡ false

revoke_run :
    (layout : MessageLayout) (fuel src dst task r : ℕ) (k : Kernel) (f : ℕ → CapSlot)
    → src ≢ 0
    → dst ≢ 0
    → src ≢ dst
    → (k.slots src).cap ≡ Capability.zombie
    → is_cap CapType.zombie (k.slots dst).cap ≡ false
    → (k.slots src).next ≡ dst
    → (k.slots dst).prev ≡ src
    → live_owner src k ≡ ok tt k
    → get_cap_space dst ≢ 0
    → (k.spaces (get_cap_space dst)).task ≡ task
    → erase_this dst k ≡ ok r (record k { slots = f })
    → revoke_cap layout (suc (suc fuel)) src k
      ≡ and_then
          (push_free_slots task dst (record k { slots = f }))
          (λ _ k'. ok (some true) (record k' { slots = with_cap src (k.slots dst).cap k'.slots }))
unfolding revoke_cap free_down skip_zombies owning_task get_slot get_meta_info set_cap
revoke_run layout fuel src dst task r k f ns nd ne z nz n p lo sp st er = ground arith

module _ (k : Kernel) (src dst task : ℕ) (xs : List ℕ) (d : IsDelegated k src dst task xs) where
  erased_kernel : Kernel
  erased_kernel = record k { slots = erased_slots dst k }

  -- The slots outside the chain are as they were.
  erased_far :
      (p : ℕ)
      → has p xs ≡ true
      → ((erased_kernel.slots p).prev ≡ (k.slots p).prev)
        × ((erased_kernel.slots p).next ≡ (k.slots p).next)
  unfolding erased_kernel
  erased_far p h = (
    prev-erased dst _ _ k.slots p _ _
        ∙ rw (ne_of_has p dst xs h d.dst_used, ne_of_has p (k.slots dst).next xs h d.next_used)
            (either_way _ _),
    next-erased dst _ _ k.slots p _ _
        ∙ rw (ne_of_has p dst xs h d.dst_used, d.prev_is, ne_of_has p src xs h d.src_used)
            (either_way _ _),
  )
    where
      either_way : (b : Bool) (m : ℕ) → (if b then m else m) ≡ m
      either_way true m = refl
      either_way false m = refl

  erased_caps : (p : ℕ) → (erased_kernel.slots p).cap ≡ (k.slots p).cap
  unfolding erased_kernel
  erased_caps p = cap-erased dst _ _ k.slots p _ _

  erased-HasOwner : (p : ℕ) → HasOwner k p → HasOwner erased_kernel p
  unfolding erased_kernel
  erased-HasOwner p o = record { space_set = o.space_set; task_set = o.task_set; in_use = o.in_use }

  erased-IsFreeList : IsFreeList erased_kernel task xs
  unfolding erased_kernel
  erased-IsFreeList = record {
    chain = record {
      linked =
          frame (prev_slot k.slots) (next_slot k.slots) (prev_slot erased_kernel.slots)
            (next_slot erased_kernel.slots) 0 0 xs d.free.chain.linked (λ p h. (erased_far p h).0)
            (λ p h. (erased_far p h).1);
      distinct = d.free.chain.distinct;
    };
    top = d.free.top;
    counted = d.free.counted;
    in_range = d.free.in_range;
    empty_slots = λ p h. erased_caps p ∙ d.free.empty_slots p h;
    owned = λ p h. erased-HasOwner p (d.free.owned p h);
  }

  erased-CanPush : CanPush erased_kernel task dst xs
  unfolding erased_kernel
  erased-CanPush = record {
    slot_set = d.dst_set;
    no_prev = prev-erased dst _ _ k.slots dst _ _ ∙ rw (==-refl dst);
    no_next = next-erased dst _ _ k.slots dst _ _ ∙ rw (==-refl dst);
    owner = erased-HasOwner dst d.dst_owner;
    of_task = d.of_task;
    new = d.dst_used;
    room = d.room;
  }

  erase_dst :
      erase_this dst k
      ≡ ok
          (if (k.slots dst).next == 0 then (k.slots dst).prev else (k.slots dst).next)
          erased_kernel
  unfolding erased_kernel
  erase_dst = erase_this_ok dst k d.dst_set (rw d.prev_is (==-false src dst d.apart)) d.dst_owner

-- Writing the capability of a slot that is not free leaves the free slots as they are.
with_cap-IsFreeList :
    (k : Kernel) (src task : ℕ) (c : Capability) (xs : List ℕ)
    → IsFreeList k task xs
    → has src xs ≡ false
    → IsFreeList (record k { slots = with_cap src c k.slots }) task xs
with_cap-IsFreeList k src task c xs v out = record {
  chain = record {
    linked =
        frame (prev_slot k.slots) (next_slot k.slots) (prev_slot (with_cap src c k.slots))
          (next_slot (with_cap src c k.slots)) 0 0 xs v.chain.linked
          (λ p h. prev-with_cap src c k.slots p) (λ p h. next-with_cap src c k.slots p);
    distinct = v.chain.distinct;
  };
  top = v.top;
  counted = v.counted;
  in_range = v.in_range;
  empty_slots =
      λ p h. cap-with_cap src c k.slots p ∙ rw (ne_of_has p src xs h out) (v.empty_slots p h);
  owned = λ p h.
      let o = v.owned p h in
      record { space_set = o.space_set; task_set = o.task_set; in_use = o.in_use };
}

-- Of a zombie in `src` whose capability was delegated to `dst`, a slot in use of a task whose
-- free slots are `xs` and whose count has room, with none of the slots beside `dst` free:
-- `revoke_cap` returns true, `src` holds the capability again, `dst` is empty and the first of
-- the task's free slots, and every other slot keeps its capability.
pub revoke_cap-takes_back :
    (layout : MessageLayout) (fuel src dst task : ℕ) (k : Kernel) (xs : List ℕ)
    → IsDelegated k src dst task xs
    → Ensures
        (λ r k'.
          (r ≡ some true)
          × IsFreeList k' task (dst ∷ xs)
          × ((p : ℕ)
              → (k'.slots p).cap ≡ (
                  if p == src
                  then (k.slots dst).cap
                  else if p == dst
                  then Capability.null
                  else (k.slots p).cap)))
        (revoke_cap layout (suc (suc fuel)) src k)
unfolding erased_kernel
revoke_cap-takes_back layout fuel src dst task k xs d =
    rw
      (revoke_run layout fuel src dst task _ k (erased_slots dst k) d.src_set d.dst_set d.apart
        d.given d.kept d.next_is d.prev_is (live_owner_ok src k d.src_owner) d.dst_owner.space_set
        d.of_task (erase_dst k src dst task xs d))
      (Ensures-bind _ _ (push_free_slots task dst (erased_kernel k src dst task xs d)) _
        (push_free_slots-IsFreeList task dst (erased_kernel k src dst task xs d) xs d.task_set
          (erased-IsFreeList k src dst task xs d) (erased-CanPush k src dst task xs d))
        (λ _ k' r. (
          refl,
          with_cap-IsFreeList k' src task (k.slots dst).cap (dst ∷ xs) r.0
              (ground (arith, d.src_used, d.apart)),
          λ p.
              cap-with_cap src (k.slots dst).cap k'.slots p
              ∙ ap (λ c. if p == src then (k.slots dst).cap else c)
                  (r.1 p
                    ∙ ap (λ c. if p == dst then Capability.null else c)
                        (erased_caps k src dst task xs d p)),
        )))
