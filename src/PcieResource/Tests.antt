-- ===== src/PcieResource/Tests.antt =====
-- Runs of the resource window, and the theorems at concrete inputs.
use cortex_m3_embedded_debug.Base.{
  ℕ, ◌≤◌, ◌<◌, ◌≡◌, ◌⊎◌, arith, true, some, none, List, [], ◌∷◌, refl,
}
use cortex_m3_embedded_debug.PcieResource.{
  Window, lab_pcie_ok, err_no_resource, alloc, translate, place, align_up,
}
use cortex_m3_embedded_debug.PcieResource.Placement.{IsValid, Placed, NotPlaced, alloc_places}
use cortex_m3_embedded_debug.PcieResource.Requests.{serve, Separate, serve-Separate, translate_lem}

-- the window of the demonstration of the lab's size
abbrev window : Window
window = record { pci_base = 4096; cpu_base = 1073741824; size = 65536; next = 4096 }

abbrev requests : List (ℕ × ℕ)
requests = (256, 256) ∷ (4096, 4096) ∷ (100, 3) ∷ (65536, 65536) ∷ (16, 16) ∷ []

serve-requests : serve (some window) requests ≡ (4096, 256) ∷ (8192, 4096) ∷ (12288, 16) ∷ []
unfolding serve alloc place align_up
serve-requests = refl

-- `next + mask` wraps to 0, which a window at address 0 takes for its first free address.
abbrev low_window : Window
low_window = record { pci_base = 0; cpu_base = 0; size = 4294967295; next = 2147483649 }

alloc_wrapped : (alloc (some low_window) 16 2147483648 true).1 ≡ some 0
unfolding alloc place align_up
alloc_wrapped = refl

window-IsValid : IsValid window
window-IsValid = record {
  positive = omega arith;
  started = omega arith;
  open_end = omega arith;
  fits = omega arith;
}

alloc_places_example :
    Placed window 4096 4096 (alloc (some window) 4096 4096 true)
    ⊎ NotPlaced window (alloc (some window) 4096 4096 true)
alloc_places_example = alloc_places window 4096 4096 true window-IsValid (omega arith) (omega arith)

serve-Separate_example : Separate 4096 69632 (serve (some window) requests)
serve-Separate_example = serve-Separate window requests window-IsValid

translate_lem_example :
    ((4096 ≤ 8192)
      × ((8192 < 69632) × (translate (some window) 8192 true ≡ (lab_pcie_ok, some 1073745920))))
    ⊎ (((8192 < 4096) ⊎ (69632 ≤ 8192))
        × (translate (some window) 8192 true ≡ (err_no_resource, none)))
translate_lem_example = translate_lem window 8192 (omega arith) (omega arith) (omega arith)
