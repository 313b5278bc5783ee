-- ===== src/Buffer/Tests.antt =====
-- Runs of buffer.c, and the theorems about it at concrete buffers.
use apple_squeezer.Prelude.{
  ℕ, ◌-◌, ◌^◌, ◌≡◌, ◌≢◌, refl, List, [], ◌∷◌, ◌++◌, true, false, arith, drop,
}
use apple_squeezer.Buffer.{Buffer, used, space, cont_write, inc_readp, flush, destroy}
use apple_squeezer.Buffer.Memory.{transfer}
use apple_squeezer.Buffer.Inv.{IsValid, IsDead, destroy-IsDead}
use apple_squeezer.Buffer.Queue.{contents, append_bytes, contents-inc_readp, append_bytes_lem}
use apple_squeezer.Buffer.Unwrap.{done, overrun, stuck, unwrap}
use apple_squeezer.Buffer.Unwrap.Ends.{unwrap-ne-stuck}
use apple_squeezer.Buffer.Unwrap.Laws.{Unwraps, unwrap_lem, unwrap-writep}

-- Eight bytes; the held ones are 7 8 1 2, going round the end.
abbrev round : Buffer
round = record {
  allocated = true;
  mem = 1 ∷ 2 ∷ 0 ∷ 0 ∷ 0 ∷ 0 ∷ 7 ∷ 8 ∷ [];
  readp = 6;
  writep = 2;
  wrap = 8;
  size = 8;
  base_size = 8;
}

-- The same with three free bytes less: 3 4 5 6 7 1 2.
abbrev nearly_full : Buffer
nearly_full = record {
  allocated = true;
  mem = 4 ∷ 5 ∷ 6 ∷ 7 ∷ 1 ∷ 2 ∷ 0 ∷ 3 ∷ [];
  readp = 7;
  writep = 6;
  wrap = 8;
  size = 8;
  base_size = 8;
}

round-IsValid : IsValid round
round-IsValid = ground arith

nearly_full-IsValid : IsValid nearly_full
nearly_full-IsValid = ground arith

contents-round : contents round ≡ 7 ∷ 8 ∷ 1 ∷ 2 ∷ []
unfolding used
contents-round = refl

-- Three bytes in one piece, with room to spare.
unwrap-round :
    unwrap 1 round 3 []
    ≡ done (record round { mem = 2 ∷ 2 ∷ 0 ∷ 0 ∷ 0 ∷ 7 ∷ 8 ∷ 1 ∷ []; readp = 5; writep = 1 }) []
unfolding unwrap transfer
unwrap-round = refl

storage : List ℕ
storage = 0 ∷ 0 ∷ 0 ∷ []

destroy-IsDead_example : IsDead (destroy round) × (space (destroy (flush round)) ≡ 2 ^ 32 - 1)
destroy-IsDead_example = destroy-IsDead round-IsValid

contents-inc_readp_example : contents (inc_readp round 3) ≡ drop 3 (contents round)
unfolding used
contents-inc_readp_example = contents-inc_readp 3 round-IsValid (omega arith)

append_bytes_lem_example :
    (contents (append_bytes round (3 ∷ 4 ∷ [])) ≡ contents round ++ (3 ∷ 4 ∷ []))
    × IsValid (append_bytes round (3 ∷ 4 ∷ []))
unfolding space used cont_write
append_bytes_lem_example = append_bytes_lem (3 ∷ 4 ∷ []) round-IsValid (omega arith)

unwrap_lem_example :
    (b' : Buffer) × (unwrap 1 nearly_full 3 [] ≡ done b' []) × Unwraps nearly_full 3 b'
unwrap_lem_example = unwrap_lem 0 3 nearly_full-IsValid (omega arith)

-- Past the bound of `cont` the scratch branch asks memmove for a negative number of bytes.
scratch_overrun : unwrap 1 nearly_full 7 [] ≡ overrun
unfolding unwrap used
scratch_overrun = refl

unwrap-writep_example :
    (b' : Buffer) × (unwrap 1 round (used round) [] ≡ done b' [])
    × (b'.writep ≡ b'.wrap)
    × (used (inc_readp b' (used round)) ≡ 8)
unwrap-writep_example = unwrap-writep 0 round-IsValid (omega arith) (omega arith) (omega arith)

unwrap-ne-stuck_example : unwrap 8 nearly_full 7 (false ∷ false ∷ []) ≢ stuck
unwrap-ne-stuck_example =
    unwrap-ne-stuck 8 nearly_full 7 (false ∷ false ∷ []) (omega arith) (omega arith)
