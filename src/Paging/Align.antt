-- ===== src/Paging/Align.antt =====
-- Rounding addresses to pages.
use git_os.Base.{ℕ, ◌+◌, ◌-◌, ◌*◌, ◌/◌, ◌%◌, ◌^◌, ◌≤◌, ◌<◌, ◌≡◌, arith, add32}
use git_os.Paging.{page_size, align_address, align_address_to_lower_page}

-- Up to the last page of the address space, the two roundings are the page boundaries next to the
-- address, above and below, and differ by a page where the address is no boundary itself.
pub align_address_bounds :
    (ptr : ℕ)
    → ptr ≤ 2 ^ 32 - page_size
    → let up = align_address ptr in
      let down = align_address_to_lower_page ptr in
      (up % page_size ≡ 0)
      × (down % page_size ≡ 0)
      × (ptr ≤ up)
      × (up < ptr + page_size)
      × (down ≤ ptr)
      × (ptr < down + page_size)
unfolding align_address align_address_to_lower_page
align_address_bounds ptr h = ground arith

-- The length of the pages that a number of bytes takes.
pub align_address-pages :
    (size : ℕ)
    → size + page_size ≤ 2 ^ 32
    → align_address (add32 0 size) ≡ 0 + page_size * ((size + page_size - 1) / page_size)
unfolding align_address
align_address-pages size h = ground arith
