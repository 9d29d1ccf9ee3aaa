-- ===== src/Task/Slots.antt =====
-- The free slots of a task form a stack.
use caprese.Common.{
  ℕ, suc, ◌<◌, ◌≡◌, ◌≢◌, ◌∙◌, ap, true, List, [], ◌∷◌, ◌==◌, if◌then◌else◌, arith, length, update,
  update_self,
}
use caprese.Config.{sub64, word}
use caprese.Cap.{Capability}
use caprese.Chain.{first, has, Linked}
use caprese.Kernel.{Kernel, Error, Ensures, ok, get_task, put_task}
use caprese.CapSlot.{erase_this}
use caprese.CapSlot.Links.{HasOwner, erased_slots, erase_this_ok}
use caprese.CapSlot.Chains.{
  prev_slot, next_slot, IsSlotChain, s_links, not_own_prev, erased-IsSlotChain, erased_isolated,
}
use caprese.Task.FreeSlots.{pop_free_slots}

-- The free slots of `task` are `xs`, the next one to be taken first.
pub record IsFreeList (k : Kernel) (task : ℕ) (xs : List ℕ) : Type 0 where
  pub chain : IsSlotChain k.slots xs
  pub top : (k.tasks task).free_slots ≡ first xs 0
  pub counted : (k.tasks task).free_slots_count ≡ length xs
  pub in_range : length xs < word
  pub empty_slots : (p : ℕ) → has p xs ≡ true → (k.slots p).cap ≡ Capability.null
  pub owned : (p : ℕ) → has p xs ≡ true → HasOwner k p

unfoldable pub popped : ℕ → ℕ → ℕ → Kernel → Kernel
popped task slot rest k = record k {
  slots = erased_slots slot k;
  tasks = update k.tasks task (record (k.tasks task) {
    free_slots = rest;
    free_slots_count = sub64 (k.tasks task).free_slots_count 1;
  });
}

pop_run :
    (task : ℕ) (k : Kernel) (x rest : ℕ)
    → task ≢ 0
    → (k.tasks task).free_slots ≡ x
    → x ≢ 0
    → erase_this (k.tasks task).free_slots k ≡ ok rest (record k { slots = erased_slots x k })
    → pop_free_slots task k ≡ ok (k.tasks task).free_slots (popped task x rest k)
unfolding pop_free_slots popped get_task put_task
pop_run task k x rest ne e nx h = ground arith

-- With no free slot left `pop_free_slots` returns the null pointer, sets SYS_E_OUT_OF_CAP_SPACE and
-- changes nothing else.
pub pop_free_slots_empty :
    (task : ℕ) (k : Kernel)
    → task ≢ 0
    → IsFreeList k task []
    → pop_free_slots task k ≡ ok 0 (record k { errno = Error.out_of_cap_space })
unfolding pop_free_slots get_task
pop_free_slots_empty task k ne v = ground (arith, v.top)

same_or_null : (n : ℕ) → (if n == 0 then 0 else n) ≡ n
same_or_null n = ground arith

one_less : (c n : ℕ) → c ≡ suc n → suc n < word → sub64 c 1 ≡ n
one_less c n e h = rw e (omega arith)

module _ (task : ℕ) (k : Kernel) (x : ℕ) (ys : List ℕ) (ne : task ≢ 0)
    (v : IsFreeList k task (x ∷ ys)) where
  x_links :
      (x ≢ 0)
      × ((k.slots x).prev ≡ 0)
      × ((k.slots x).next ≡ first ys 0)
      × Linked (prev_slot k.slots) (next_slot k.slots) x ys 0
  x_links = s_links x k [] ys v.chain

  top_rest : (if (k.slots x).next == 0 then (k.slots x).prev else (k.slots x).next) ≡ first ys 0
  top_rest = rw (x_links.1, x_links.2) (same_or_null (first ys 0))

  erase_top :
      erase_this (k.tasks task).free_slots k
      ≡ ok (first ys 0) (record k { slots = erased_slots x k })
  erase_top = rw v.top (
      erase_this_ok x k x_links.0 (not_own_prev x k [] ys v.chain) (v.owned x (ground arith))
      ∙ ap (λ r. ok r (record k { slots = erased_slots x k })) (top_rest))

  pub pop_ok : pop_free_slots task k ≡ ok (k.tasks task).free_slots (popped task x (first ys 0) k)
  pop_ok = pop_run task k x (first ys 0) ne v.top x_links.0 erase_top

  pub popped-HasOwner : (p : ℕ) → HasOwner k p → HasOwner (popped task x (first ys 0) k) p
  unfolding popped update
  popped-HasOwner p o = record {
    space_set = o.space_set;
    task_set = o.task_set;
    in_use = ground (arith, o.in_use);
  }

  pub popped-IsFreeList : IsFreeList (popped task x (first ys 0) k) task ys
  unfolding popped update
  popped-IsFreeList = record {
    chain = erased-IsSlotChain x k [] ys v.chain;
    top = ap (λ t. t.free_slots) (update_self k.tasks task _);
    counted =
        ap (λ t. t.free_slots_count) (update_self k.tasks task _)
        ∙ one_less _ (length ys) v.counted v.in_range;
    in_range = ground (arith, v.in_range);
    empty_slots = λ p h. (erased_isolated x k [] ys v.chain).2 p ∙ v.empty_slots p (ground arith);
    owned = λ p h. popped-HasOwner p (v.owned p (ground arith));
  }

-- `pop_free_slots` takes the slot on top of the task's free list `x ∷ ys`: the slot it returns
-- is empty and linked to nothing, and the list is `ys` afterwards, in the same order and with
-- the right count.
pub pop_free_slots-IsFreeList :
    (task : ℕ) (k : Kernel) (x : ℕ) (ys : List ℕ)
    → task ≢ 0
    → IsFreeList k task (x ∷ ys)
    → Ensures
        (λ r k'.
          (r ≡ x)
          × IsFreeList k' task ys
          × ((k'.slots x).prev ≡ 0)
          × ((k'.slots x).next ≡ 0)
          × ((k'.slots x).cap ≡ Capability.null))
        (pop_free_slots task k)
unfolding popped
pop_free_slots-IsFreeList task k x ys ne v =
    let e = erased_isolated x k [] ys v.chain in
    rw (pop_ok task k x ys ne v)
      (v.top, popped-IsFreeList task k x ys ne v, e.0, e.1, e.2 x ∙ v.empty_slots x (ground arith))
