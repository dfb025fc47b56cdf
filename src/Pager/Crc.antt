-- ===== src/Pager/Crc.antt =====
-- `calculate_crc32` of src/pager.c.
use custom_db.Prelude.{ℕ, zero, suc, ◌+◌, ◌-◌, ◌/◌, ◌%◌, ◌^◌, ◌==◌, if◌then◌else◌}
use custom_db.Pager.State.{Page}
use Prim.Native.Nat.{bit_and, bit_xor}

-- the inner loop: eight rounds of `j`
unfoldable pub crc_bits : ℕ → ℕ → ℕ
crc_bits zero crc = crc
crc_bits (suc j) crc =
    crc_bits j (if bit_and crc 1 == 0 then crc / 2 else bit_xor (crc / 2) 0xedb8_8320)

-- the loop over the bytes, from offset `i` on
unfoldable pub crc_loop : ℕ → Page → ℕ → ℕ → ℕ
unfolding crc_bits
crc_loop zero p i crc = crc
crc_loop (suc n) p i crc = crc_loop n p (i + 1) (crc_bits 8 (bit_xor crc (p i)))

-- `~crc` on 32 bits
unfoldable pub calculate_crc32 : Page → ℕ → ℕ
unfolding crc_loop
calculate_crc32 p length = 2 ^ 32 - 1 - crc_loop length p 0 0xffff_ffff % 2 ^ 32
