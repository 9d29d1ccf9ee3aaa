-- ===== src/Setup/Tiling.antt =====
-- Lists of blocks that cover a region, and the capabilities for them.
use caprese.Common.{ℕ, ◌+◌, ◌%◌, ◌^◌, ◌≡◌, refl, Bool, List, [], ◌∷◌, ◌++◌}
use caprese.Kernel.{Cmd, Run, ok, stop, Kernel, pure, and_then, ◌>>=◌}
use caprese.Setup.BootInfo.{RootBootInfo}
use caprese.Setup.Blocks.{insert_block}

-- The 2^size_bit bytes from `base` on.
pub record Block : Type 0 where
  pub base : ℕ
  pub size_bit : ℕ

-- From `a` to `b` without gap or overlap, each block at a multiple of its size.
abbrev pub Tiles : ℕ → List Block → ℕ → Type 0
Tiles a [] b = a ≡ b
Tiles a (c ∷ cs) b = (c.base ≡ a) × (c.base % 2 ^ c.size_bit ≡ 0) × Tiles (a + 2 ^ c.size_bit) cs b

pub past_pure :
    {A B C : Type 0} (g : A → B) (f : B → Cmd C) (h : A → Cmd C)
    → ((a : A) (k : Kernel) → f (g a) k ≡ h a k)
    → (r : Run A) → and_then (and_then r (λ a. pure (g a))) f ≡ and_then r h
past_pure g f h e (ok a k) = e a k
past_pure g f h e (stop s) = refl

module _ (root_task : ℕ) (device : Bool) where
  -- A capability for each of the blocks, in their order.
  unfoldable pub insert_all : List Block → RootBootInfo → Cmd RootBootInfo
  insert_all [] info = pure info
  insert_all (b ∷ bs) info =
      insert_block root_task device b.base b.size_bit info >>= λ info'. insert_all bs info'

  pub past_take :
      {B : Type 0} (bs : List Block) (f : RootBootInfo → Cmd B) (g : RootBootInfo → Cmd B)
      → ((i : RootBootInfo) (k : Kernel) → g i k ≡ and_then (insert_all bs i k) f)
      → (r : Run RootBootInfo) → and_then r g ≡ and_then (and_then r (insert_all bs)) f
  past_take bs f g h (ok i k) = h i k
  past_take bs f g h (stop s) = refl

  pub past_insert :
      {B : Type 0} (f g : RootBootInfo → Cmd B)
      → ((i : RootBootInfo) (k : Kernel) → f i k ≡ g i k)
      → (r : Run RootBootInfo) → and_then r f ≡ and_then r g
  past_insert f g h (ok i k) = h i k
  past_insert f g h (stop s) = refl

  pub insert_all-append :
      (bs cs : List Block) (info : RootBootInfo) (k : Kernel)
      → insert_all (bs ++ cs) info k ≡ and_then (insert_all bs info k) (insert_all cs)
  unfolding insert_all
  insert_all-append [] cs info k = refl
  insert_all-append (b ∷ bs) cs info k =
      past_take bs (insert_all cs) (insert_all (bs ++ cs)) (insert_all-append bs cs)
        (insert_block root_task device b.base b.size_bit info k)
