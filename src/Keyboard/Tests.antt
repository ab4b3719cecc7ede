-- ===== src/Keyboard/Tests.antt =====
-- Runs of the keyboard handler, and the theorem at an input that meets its hypothesis.
use micro_kernel.Base.{◌≡◌, refl, [], ◌∷◌, arith, length}
use micro_kernel.Base.Int.{pos}
use micro_kernel.Console.{returned, write_char_at}
use micro_kernel.Console.Relation.{RunRel}
use micro_kernel.Keyboard.{initial, scancode_to_ascii, keyboard_handler, key, put, next_line}
use micro_kernel.Keyboard.Laws.{handle_all, type_scancodes, IsAt, handle_all-type_scancodes}

table_size : length scancode_to_ascii ≡ 58
table_size = refl

last_column :
    keyboard_handler 30 (record { cursor_x = 79; cursor_y = 5 })
    ≡ returned (write_char_at b'a' (pos 5) (pos 79) 15 ∷ []) (record { cursor_x = 0; cursor_y = 6 })
unfolding keyboard_handler key put next_line
last_column = refl

released : keyboard_handler 158 initial ≡ returned [] initial
unfolding keyboard_handler
released = refl

handle_all-type_scancodes_example :
    RunRel IsAt
      (handle_all (30 ∷ 14 ∷ 28 ∷ 158 ∷ []) initial)
      (type_scancodes (30 ∷ 14 ∷ 28 ∷ 158 ∷ []) 240)
handle_all-type_scancodes_example =
    handle_all-type_scancodes (30 ∷ 14 ∷ 28 ∷ 158 ∷ []) initial 240 (omega arith)
