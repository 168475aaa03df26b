-- ===== src/Vram/Tests.antt =====
-- The theorems on private video memory at concrete inputs.
use r200_p96_driver.Base.{◌+◌, ◌*◌, ◌%◌, ◌≤◌, ◌<◌, ◌≡◌, refl, some, arith}
use r200_p96_driver.Vram.{Board, allocate_private_vram}
use r200_p96_driver.Vram.Stack.{IsValid, allocate_private_vram_lem}

abbrev sixteen_pages : Board
sixteen_pages = record {
  memory_base = 0x4000_0000;
  memory_size = 16 * 4096;
  memory_space_size = 32 * 4096;
}

sixteen_pages-IsValid : IsValid sixteen_pages
sixteen_pages-IsValid = record { based = omega arith; visible = omega arith; inside = omega arith }

abbrev fourteen_pages : Board
fourteen_pages = record sixteen_pages { memory_size = 14 * 4096 }

two_pages :
    allocate_private_vram sixteen_pages 5000 ≡ some (0x4000_0000 + 14 * 4096, fourteen_pages)
unfolding allocate_private_vram
two_pages = refl

allocate_private_vram_lem_example :
    ((0x4000_0000 + 14 * 4096) % 4096 ≡ 0)
    × (0x4000_0000 + 14 * 4096 ≡ 0x4000_0000 + 14 * 4096)
    × (0x4000_0000 + 14 * 4096 + 5000 ≤ 0x4000_0000 + 16 * 4096)
    × (0x4000_0000 + 16 * 4096 < 0x4000_0000 + 14 * 4096 + 5000 + 8192)
    × (fourteen_pages ≡ record sixteen_pages { memory_size = 14 * 4096 })
    × IsValid fourteen_pages
allocate_private_vram_lem_example =
    allocate_private_vram_lem sixteen_pages 5000 sixteen_pages-IsValid (omega arith) two_pages
