-- ===== src/Hil/Uio/Registers.antt =====
-- A plain register file as the window (`FakeMmio` of the tests), which keeps its writes in order.
use hil_lab.Prelude.{ℕ, ◌≡◌, List, [], ◌∷◌, ◌++◌, ◌==◌, if◌then◌else◌, ◌%◌, ◌^◌}
use hil_lab.Errors.{ok}
use hil_lab.Hil.Uio.{Mmio32, low_word}

pub record Registers : Type 0 where
  pub value : ℕ → ℕ
  pub writes : List (ℕ × ℕ)

abbrev pub update : (ℕ → ℕ) → ℕ → ℕ → ℕ → ℕ
update f k v j = if j == k then v else f j

abbrev pub register_file : Mmio32
register_file = record {
  State = Registers;
  read32 = λ offset s. (ok (s.value offset), s);
  write32 = λ offset v s. (
    ok tt,
    record {
      value = update s.value offset (low_word v);
      writes = s.writes ++ (offset, low_word v) ∷ [];
    },
  );
}

-- What a read from the window gives.
abbrev pub IsWord : ℕ → Type 0
IsWord v = v % 2 ^ 32 ≡ v
