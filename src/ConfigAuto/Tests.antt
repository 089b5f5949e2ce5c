-- ===== src/ConfigAuto/Tests.antt =====
-- Runs of the computed limit, and its theorems at them.
use server_naive_rs.Common.{◌+◌, ◌-◌, ◌*◌, ◌/◌, ◌^◌, ◌≤◌, ◌≡◌, ◌⊎◌, refl, max, none, some}
use server_naive_rs.ConfigAuto.{
  auto, memory, compute_auto, fd_reserve, resolve, total_memory_kb, nofile_soft_limit,
  compute_auto_fits,
}

small_machine :
    ((compute_auto 1 1048576 65536).value ≡ 2621)
    × ((compute_auto 1 1048576 65536).limiting ≡ memory)
unfolding compute_auto
small_machine = (refl, refl)

unread_machine : (resolve none none (some 1024) auto).value ≡ 384
unfolding resolve
unread_machine = refl

compute_auto_fits_example :
    let bd = compute_auto 1 1048576 65536 in
    (bd.value ≡ 1)
    ⊎ ((bd.value * 2 + fd_reserve 65536 ≤ 65536)
        × (bd.value * 200 * 2 ≤ 1048576)
        × (bd.value * 200 ≤ max 1 1 * 1500 * 1000))
compute_auto_fits_example = compute_auto_fits 1 1048576 65536

-- A machine of 4 GiB in pages of 4 KiB, one that does not say, and one that saturates.
memory_readings :
    (total_memory_kb (some 1048576) (some 4096) ≡ some 4194304)
    × (total_memory_kb none (some 4096) ≡ none)
    × (total_memory_kb (some (2 ^ 62)) (some 4096) ≡ some ((2 ^ 64 - 1) / 1024))
unfolding total_memory_kb
memory_readings = (refl, refl, refl)

unread_limit : nofile_soft_limit 1 0 ≡ none
unfolding nofile_soft_limit
unread_limit = refl
