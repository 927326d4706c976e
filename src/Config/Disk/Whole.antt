-- ===== src/Config/Disk/Whole.antt =====
-- The test of reading finds in its file what it wants to read.
use rtmb.Config.Disk.{
  cleared_buffer, open_file_for_write, open_file_for_read, File, write_blocks, mul_int,
  setup_file_for_read, read_blocks,
}
use rtmb.Base.{
  length-replicate, ◌++◌, length, drop, take, replicate, le→leb, ap, ◌≤◌, ◌∙◌, arith, ◌+◌, ◌*◌, ok,
  ◌≡◌, ℕ, suc, zero, refl, List, [], ◌∷◌,
}

abbrev no_bytes : ℕ → List ℕ
no_bytes n = replicate n 0

zeros_after_write :
    (n k : ℕ)
    → k ≡ n + 1
    → take n (no_bytes n) ++ (0 ∷ []) ++ drop k (no_bytes n) ≡ no_bytes (suc n)
zeros_after_write n zero e = absurd (omega arith)
zeros_after_write zero (suc k) e = refl
zeros_after_write (suc n) (suc k) e = ap (◌∷◌ 0) (zeros_after_write n k (omega arith))

abbrev file : List ℕ → ℕ → File
file contents place = record { contents = contents; place = place }

-- `n` zero bytes, the next access at `place`.
abbrev zeros : ℕ → ℕ → File
zeros n place = record { contents = no_bytes n; place = place }

same_zeros : (a b : ℕ) → a ≡ b → zeros a a ≡ zeros b b
same_zeros a b e = ap (λ n. zeros n n) e

write_blocks-zeros :
    (loops n : ℕ)
    → write_blocks loops (cleared_buffer 1) (zeros n n) ≡ zeros (n + loops) (n + loops)
unfolding write_blocks
write_blocks-zeros zero n = same_zeros n (n + 0) (omega arith)
write_blocks-zeros (suc loops) n =
    ap (λ f. write_blocks loops (cleared_buffer 1) f)
      (ap (λ l. file l (n + 1)) (zeros_after_write n (n + 1) refl)
        ∙ ap (zeros (suc n)) (omega arith))
    ∙ write_blocks-zeros loops (suc n)
    ∙ same_zeros (suc n + loops) (n + suc loops) (omega arith)

take-drop-zeros : (n p size : ℕ) → p + n ≤ size → take n (drop p (no_bytes size)) ≡ no_bytes n
take-drop-zeros zero p size h = refl
take-drop-zeros (suc n) p zero h = absurd (omega arith)
take-drop-zeros (suc n) zero (suc size) h = ap (◌∷◌ 0) (take-drop-zeros n 0 size (omega arith))
take-drop-zeros (suc n) (suc p) (suc size) h = take-drop-zeros (suc n) p size (omega arith)

read_blocks-zeros :
    (loops block_size size place : ℕ)
    → place + loops * block_size ≤ size
    → read_blocks loops block_size (zeros size place)
      ≡ ok (replicate loops (no_bytes block_size), zeros size (place + loops * block_size))
unfolding read_blocks
read_blocks-zeros zero block_size size place h = ap (λ p. ok ([], zeros size p)) (omega arith)
read_blocks-zeros (suc loops) block_size size place h =
    let room : place + block_size ≤ length (no_bytes size) =
      grind (arith, length-replicate {A = ℕ} size 0) in
    rw
      (
        le→leb (place + block_size) (length (no_bytes size)) room,
        take-drop-zeros block_size place size (grind arith),
        read_blocks-zeros loops block_size size (place + block_size) (grind arith),
      )
      (ap (λ p. ok (replicate (suc loops) (no_bytes block_size), zeros size p)) (grind arith))

reads_whole :
    (block_size sub_iters size : ℕ)
    → size ≡ block_size * sub_iters
    → read_blocks sub_iters block_size (zeros size 0)
      ≡ ok (replicate sub_iters (cleared_buffer block_size), zeros size size)
reads_whole block_size sub_iters size e =
    read_blocks-zeros sub_iters block_size size 0 (grind arith)
    ∙ ap (λ p. ok (replicate sub_iters (cleared_buffer block_size), zeros size p)) (grind arith)

-- Where `block_size * sub_iters` fits into an `int`, the file that `setup_file_for_read` writes byte
-- by byte is whole for the test of reading: a round, which opens it again, reads `sub_iters` blocks
-- of zero bytes to its very end without a short read, and leaves a file in which the next round
-- finds the same bytes.
pub read_blocks-setup_file_for_read :
    (block_size sub_iters loops : ℕ) (f : File)
    → mul_int block_size sub_iters ≡ ok loops
    → let blocks : List (List ℕ) = replicate sub_iters (replicate block_size 0) in
      let whole : File = record { contents = replicate loops 0; place = loops } in
      (read_blocks sub_iters block_size (open_file_for_read (setup_file_for_read loops 1 f))
        ≡ ok (blocks, whole))
      × (read_blocks sub_iters block_size (open_file_for_read whole) ≡ ok (blocks, whole))
unfolding setup_file_for_read open_file_for_read open_file_for_write mul_int
read_blocks-setup_file_for_read block_size sub_iters loops f e =
    let long : loops ≡ block_size * sub_iters = ground arith in
    (
      ap (λ (g : File). read_blocks sub_iters block_size (record g { place = 0 }))
            (write_blocks-zeros loops 0 ∙ same_zeros (0 + loops) loops (omega arith))
          ∙ reads_whole block_size sub_iters loops long,
      reads_whole block_size sub_iters loops long,
    )
