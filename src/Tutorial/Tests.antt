-- ===== src/Tutorial/Tests.antt =====
-- src/tutorial/tutorial.cpp: a run of two requests.
use psa.Prelude.{ℕ, ◌+◌, ◌==◌, ◌≡◌, Bool, if◌then◌else◌, update}
use psa.Tutorial.{RetCode, ret_read_done, Wires, driven, data_wires, Top, run}
use psa.Tutorial.Served.{run_serves}

-- A write of 8 to the address 7, and a read there
abbrev some_rand : ℕ → ℕ
some_rand k = if k == 3 then 2 else if k == 4 then 519 else k + 6

abbrev empty_memory : ℕ → ℕ
empty_memory i = 0

abbrev memory_first : ℕ → Bool
memory_first k = k == 100

abbrev after_two : Top
after_two = run some_rand 0 empty_memory memory_first 202

run_serves_example :
    (after_two.m_data ≡ update empty_memory 7 8)
    × (after_two.drawn ≡ 5)
    × ◌≡◌ {A = RetCode × Wires}
        (after_two.now.done, data_wires after_two.now)
        (ret_read_done, driven 8)
run_serves_example = run_serves some_rand 0 empty_memory memory_first 1
