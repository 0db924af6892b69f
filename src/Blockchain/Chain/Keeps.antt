-- ===== src/Blockchain/Chain/Keeps.antt =====
-- What a check leaves alone: all of the chain but the cache of signers.
use gis.Base.{ℕ, Option, none, some, Outcome, done, panic, stuck, ◌≡◌, arith}
use gis.Blockchain.Types.{Block, BlockQuality}
use gis.Blockchain.Env.{Env}
use gis.Blockchain.Chain.State.{Chain}
use gis.Blockchain.Chain.Signers.{get_block_signers, is_good_signer_for_block, is_good_sign_block}
use gis.Blockchain.Chain.Check.{check_position, check_block}

-- The chain `c` but for its cache of signers.
abbrev pub with_signers : Chain → Chain → Chain
with_signers c c' = record c { signers_index = c'.signers_index; signers = c'.signers }

abbrev pub Keeps : {A : Type 0} → Chain → Outcome (A × Chain) → Type 0
Keeps c (done (a, c')) = c' ≡ with_signers c c'
Keeps c panic = Unit
Keeps c stuck = Unit

pub get_block_signers-Keeps :
    (fuel : ℕ) (block : Block) (c : Chain) → Keeps c (get_block_signers fuel block c)
unfolding get_block_signers
get_block_signers-Keeps fuel block c = ground arith

is_good_signer_for_block-Keeps :
    (fuel : ℕ) (block full : Block) (c : Chain)
    → Keeps c (is_good_signer_for_block fuel block full c)
unfolding is_good_signer_for_block
is_good_signer_for_block-Keeps fuel block full c =
    ground (arith, get_block_signers-Keeps fuel full c)

is_good_sign_block-Keeps :
    (fuel : ℕ) (block : Block) (full : Option Block) (c : Chain)
    → Keeps c (is_good_sign_block fuel block full c)
unfolding is_good_sign_block
is_good_sign_block-Keeps fuel block none c = ground arith
is_good_sign_block-Keeps fuel block (some full) c =
    ground (arith, is_good_signer_for_block-Keeps fuel block full c)

check_position-Keeps :
    (fuel : ℕ) (block : Block) (last full : Option Block) (c : Chain)
    → Keeps c (check_position fuel block last full c)
unfolding check_position
check_position-Keeps fuel block none full c = ground arith
check_position-Keeps fuel block (some last) full c =
    ground (arith, is_good_sign_block-Keeps fuel block full c)

pub check_block-Keeps :
    (env : Env) (fuel : ℕ) (block : Block) (last full : Option Block) (c : Chain)
    → Keeps c (check_block env fuel block last full c)
unfolding check_block
check_block-Keeps env fuel block last full c =
    ground (arith, check_position-Keeps fuel block last full c)

-- A check that answers has changed nothing but the cache of signers.
pub check_block-with_signers :
    (env : Env) (fuel : ℕ) (block : Block) (last full : Option Block) (c : Chain) {q : BlockQuality}
    {c' : Chain}
    → check_block env fuel block last full c ≡ done (q, c')
    → c' ≡ with_signers c c'
check_block-with_signers env fuel block last full c {q} {c'} h =
    rw h at (check_block-Keeps env fuel block last full c)
