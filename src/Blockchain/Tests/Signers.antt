-- ===== src/Blockchain/Tests/Signers.antt =====
-- The signers of a block, at concrete chains.
use gis.Base.{ℕ, inl, inr, true, List, [], ◌∷◌, none, some, done, stuck, ◌≡◌, refl, arith, length}
use gis.Bytes.{Bytes}
use gis.Blockchain.Types.{Block}
use gis.Blockchain.Chain.State.{Chain}
use gis.Blockchain.Chain.Signers.{signers_loop, get_block_signers}
use gis.Blockchain.Chain.Selection.{AreSigners}
use gis.Blockchain.Chain.Termination.{get_block_signers-stuck, get_block_signers-AreSigners}
use gis.Blockchain.Chain.Probes.{AreProbed, signers_loop-found}
use gis.Blockchain.Chain.Queries.{get_block}
use gis.Blockchain.Chain.Signers.{is_good_sign_block}
use gis.Blockchain.Chain.Mining.{get_sign_block, sign_block}
use gis.Blockchain.Chain.Offered.{mined_by, get_sign_block-is_good}
use gis.Blockchain.Tests.{block_at, zeros, empty_chain, env, runs}
use gis.Blockchain.Tests.Forks.{full, chain2, zone_transaction}

-- Two blocks have one other key at most.
get_block_signers-stuck_example : get_block_signers 1000 full chain2 ≡ stuck
unfolding runs
get_block_signers-stuck_example =
    get_block_signers-stuck 1000 full chain2 refl (omega arith) (omega arith) (omega arith) refl
      (omega arith) (omega arith)

abbrev ninth : Block
ninth = record (block_at 9 zeros 28 (some zone_transaction)) {
  signature = 0 ∷ 0 ∷ 0 ∷ 0 ∷ 0 ∷ 0 ∷ 0 ∷ 1 ∷ [];
}

abbrev signing : ℕ → Block
signing i = block_at i zeros 16 none

abbrev chain9 : Chain
chain9 = record empty_chain {
  last_block = some ninth;
  last_full_block = some ninth;
  db = record {
    blocks =
        signing 1
        ∷ signing 2
        ∷ signing 3
        ∷ signing 4
        ∷ signing 5
        ∷ signing 6
        ∷ signing 7
        ∷ signing 8
        ∷ ninth
        ∷ [];
    domains = [];
    zones = [];
  };
}

abbrev chosen : List Bytes
chosen = (2 ∷ []) ∷ (3 ∷ []) ∷ (4 ∷ []) ∷ (5 ∷ []) ∷ (6 ∷ []) ∷ (7 ∷ []) ∷ (8 ∷ []) ∷ []

signers_of_ninth :
    get_block_signers 8 ninth chain9
    ≡ done (chosen, record chain9 { signers_index = 9; signers = chosen })
unfolding runs
signers_of_ninth = refl

get_block_signers-AreSigners_example :
    AreSigners (9 ∷ []) chain9.db.blocks chosen
    × (length chosen ≡ 7)
    × (record chain9 { signers_index = 9; signers = chosen }
        ≡ record chain9 { signers_index = 9; signers = chosen })
unfolding runs
get_block_signers-AreSigners_example =
    get_block_signers-AreSigners 8 ninth chain9 _ chosen (omega arith) refl signers_of_ninth

-- With the tail 1 the loop looks at the blocks 2 to 8.
chosen-AreProbed : AreProbed 7 chain9 (9 ∷ []) 1 8 1 chosen
unfolding runs get_block
chosen-AreProbed = (
  refl,
  refl,
  inl (signing 2, refl, refl),
  (
    refl,
    refl,
    inr (inl (signing 3, refl, refl)),
    (
      refl,
      refl,
      inr (inr (inl (signing 4, refl, refl))),
      (
        refl,
        refl,
        inr (inr (inr (inl (signing 5, refl, refl)))),
        (
          refl,
          refl,
          inr (inr (inr (inr (inl (signing 6, refl, refl))))),
          (
            refl,
            refl,
            inr (inr (inr (inr (inr (inl (signing 7, refl, refl)))))),
            (refl, refl, inr (inr (inr (inr (inr (inr (inl (signing 8, refl, refl))))))), tt),
          ),
        ),
      ),
    ),
  ),
)

signers_loop-found_example :
    (result : List Bytes) × (signers_loop 8 chain9 (9 ∷ []) 1 8 1 [] ≡ done result)
    × AreSigners (9 ∷ []) chain9.db.blocks result
    × (length result ≡ 7)
signers_loop-found_example =
    signers_loop-found 7 chain9 (9 ∷ []) 1 8 1 chosen (omega arith) chosen-AreProbed (omega arith)

abbrev chain9_after : Chain
chain9_after = record chain9 { signers_index = 9; signers = chosen }

offered : get_sign_block env 8 (some (3 ∷ [])) chain9 ≡ done (some (sign_block ninth), chain9_after)
unfolding runs
offered = refl

get_sign_block-is_good_example :
    ((sign_block ninth).index ≡ 10)
    × ((sign_block ninth).prev_block_hash ≡ zeros)
    × ((sign_block ninth).transaction ≡ none)
    × (is_good_sign_block 8 (mined_by (3 ∷ []) (sign_block ninth)) (some ninth) chain9_after
        ≡ done (true, chain9_after))
get_sign_block-is_good_example =
    get_sign_block-is_good env 8 (3 ∷ []) ninth ninth (sign_block ninth) chain9 chain9_after refl
      refl (omega arith) offered
