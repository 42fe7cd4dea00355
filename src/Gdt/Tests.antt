-- ===== src/Gdt/Tests.antt =====
-- A descriptor of the kernel's table.
use git_os.Base.{◌≡◌, refl, some}
use git_os.Gdt.{Structured, fields, encode}

-- The user's code segment: all of the address space.
abbrev flat : Structured
flat = record { base = 0; limit = 0xffffffff; type = 0xf8 }

flat_bytes :
    encode flat
    ≡ some (record {
      byte0 = 0xff;
      byte1 = 0xff;
      byte2 = 0;
      byte3 = 0;
      byte4 = 0;
      byte5 = 0xf8;
      byte6 = 0xcf;
      byte7 = 0;
    })
unfolding encode fields
flat_bytes = refl
