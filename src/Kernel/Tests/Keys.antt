-- ===== src/Kernel/Tests/Keys.antt =====
-- The key buffer.
use frosk_current.Prelude.{inl, refl, false, [], ◌∷◌, arith, if◌then◌else◌, ◌==◌}
use frosk_current.Kernel.Keyboard.{Keyboard}
use frosk_current.Kernel.Keyboard.Stack.{IsStack}

-- the bytes 30 and 48, in this order
abbrev keyboard : Keyboard
keyboard = record {
  buffer = λ q. if q == 0 then 30 else 48;
  end = 2;
  size = 2;
  locked = false;
  delayed = [];
}

keyboard-IsStack : IsStack keyboard (48 ∷ 30 ∷ [])
keyboard-IsStack = record {
  few = omega arith;
  sized = refl;
  ends = inl refl;
  holds = (refl, (refl, tt));
}
