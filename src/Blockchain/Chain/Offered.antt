-- ===== src/Blockchain/Chain/Offered.antt =====
-- The signing block that `get_sign_block` offers to the miner, and the check that it has to pass.
use gis.Base.{
  ltb, ℕ, zero, suc, ◌+◌, ◌-◌, ◌<◌, ◌≤◌, ◌^◌, Bool, true, false, List, none, some, done, ◌≡◌, refl,
  arith, ◌∙◌, ap, subst, sub64, >>=-eq-done,
}
use gis.Bytes.{Bytes}
use gis.Commons.{block_signers_min}
use gis.Blockchain.Types.{Block, new_block}
use gis.Blockchain.Env.{Env}
use gis.Blockchain.Chain.State.{Chain, get_height, contains}
use gis.Blockchain.Chain.Signers.{
  has_signers_for, get_block_signers, already_signed, is_good_signer_for_block, is_good_sign_block,
}
use gis.Blockchain.Chain.Mining.{
  already_mined, unless_mined, choose_as_signer, choose_sign_block, get_sign_block, sign_block,
}

-- Both loops look for a block of the key in the same way.
already_signed-already_mined :
    (rounds index : ℕ) (pub_key : Bytes) (c : Chain)
    → already_signed rounds index pub_key c ≡ already_mined rounds index pub_key c
unfolding already_signed already_mined
already_signed-already_mined zero index pub_key c = refl
already_signed-already_mined (suc rounds) index pub_key c =
    ground (arith, already_signed-already_mined rounds (index + 1) pub_key c)

already_mined-rest :
    (rounds index : ℕ) (pub_key : Bytes) (c : Chain)
    → already_mined (suc rounds) index pub_key c ≡ done false
    → already_signed rounds (index + 1) pub_key c ≡ done false
unfolding already_mined
already_mined-rest rounds index pub_key c h =
    ground (arith, already_signed-already_mined rounds (index + 1) pub_key c)

-- Asked again, a chain gives the same signers.
get_block_signers-again :
    (fuel : ℕ) (block : Block) (key : Bytes) (c c' : Chain) (ks : List Bytes)
    → get_block_signers fuel block c ≡ done (ks, c')
    → contains key ks ≡ true
    → get_block_signers fuel block c' ≡ done (ks, c')
unfolding get_block_signers has_signers_for contains get_height
get_block_signers-again fuel block key c c' ks h k = ground arith

choose_as_signer-offers :
    (signs : Bool) (full last block : Block) (pub_key : Bytes) (c c' : Chain)
    → choose_as_signer signs full last pub_key c ≡ done (some block, c')
    → (signs ≡ true)
      × (c ≡ c')
      × (already_mined (get_height c + 1 - full.index) full.index pub_key c ≡ done false)
      × (block ≡ sign_block last)
unfolding choose_as_signer
choose_as_signer-offers false full last block pub_key c c' h = absurd (ground (arith, h))
choose_as_signer-offers true full last block pub_key c c' h =
    let (mined, e, rest) =
      >>=-eq-done (already_mined (get_height c + 1 - full.index) full.index pub_key c)
        (λ mined. done (unless_mined mined last c)) h in
    go mined e rest
  where
    go :
        (mined : Bool)
        → already_mined (get_height c + 1 - full.index) full.index pub_key c ≡ done mined
        → done (unless_mined mined last c) ≡ done (some block, c')
        → (true ≡ true)
          × (c ≡ c')
          × (already_mined (get_height c + 1 - full.index) full.index pub_key c ≡ done false)
          × (block ≡ sign_block last)
    go true e r = absurd (ground (arith, r))
    go false e r = (refl, ground (arith, r), e, ground (arith, r))

choose_sign_block-offers :
    (fuel : ℕ) (full last block : Block) (pub_key : Bytes) (c c' : Chain)
    → choose_sign_block fuel full last pub_key c ≡ done (some block, c')
    → (ks : List Bytes) × (get_block_signers fuel full c ≡ done (ks, c'))
      × (contains pub_key ks ≡ true)
      × (already_mined (get_height c' + 1 - full.index) full.index pub_key c' ≡ done false)
      × (block ≡ sign_block last)
unfolding choose_sign_block
choose_sign_block-offers fuel full last block pub_key c c' h =
    let ((ks, c1), e, rest) = >>=-eq-done (get_block_signers fuel full c) _ h in
    let (signs, same, mined, offered) =
      choose_as_signer-offers (contains pub_key ks) full last block pub_key c1 c' rest in
    (
      ks,
      e ∙ ap (λ x. done (ks, x)) same,
      signs,
      subst (λ x. already_mined (get_height x + 1 - full.index) full.index pub_key x ≡ done false)
          same mined,
      offered,
    )

-- Signers are given only of a block up to the height, and the height does not change.
get_block_signers-within :
    (fuel : ℕ) (block : Block) (key : Bytes) (c c' : Chain) (ks : List Bytes)
    → get_block_signers fuel block c ≡ done (ks, c')
    → contains key ks ≡ true
    → (block.index ≤ get_height c) × (c'.last_block ≡ c.last_block)
unfolding get_block_signers contains
get_block_signers-within fuel block key c c' ks h k = ground arith

abbrev pub mined_by : Bytes → Block → Block
mined_by pub_key block = record block { pub_key = pub_key }

-- A signer that has not signed passes.
signer-passes :
    (fuel : ℕ) (full last : Block) (pub_key : Bytes) (c : Chain) (ks : List Bytes)
    → last.index + 1 < 2 ^ 64
    → full.index ≤ last.index
    → get_block_signers fuel full c ≡ done (ks, c)
    → contains pub_key ks ≡ true
    → already_signed (last.index - full.index) (full.index + 1) pub_key c ≡ done false
    → is_good_signer_for_block fuel (mined_by pub_key (sign_block last)) full c ≡ done (true, c)
unfolding is_good_signer_for_block
signer-passes fuel full last pub_key c ks small within again signs unsigned =
    ground (arith, again, signs, unsigned)

module _ (env : Env) (fuel : ℕ) (pub_key : Bytes) (full last block : Block) (c c' : Chain)
    (cached : c.last_block ≡ some last) (cached_full : c.last_full_block ≡ some full)
    (small : last.index + 1 < 2 ^ 64)
    (offered : get_sign_block env fuel (some pub_key) c ≡ done (some block, c')) where
  -- What the guards of `get_sign_block` let through.
  guarded :
      (choose_sign_block fuel full last pub_key c ≡ done (some block, c'))
      × (ltb (sub64 last.index full.index) block_signers_min ≡ true)
  unfolding get_sign_block get_height
  guarded = ground (arith, cached, cached_full, offered)

  height : get_height c ≡ last.index
  unfolding get_height
  height = ground (arith, cached)

  passes :
      (ks : List Bytes)
      → get_block_signers fuel full c ≡ done (ks, c')
      → contains pub_key ks ≡ true
      → already_mined (get_height c' + 1 - full.index) full.index pub_key c' ≡ done false
      → (get_height c' ≡ last.index)
        × (is_good_signer_for_block fuel (mined_by pub_key (sign_block last)) full c'
            ≡ done (true, c'))
  unfolding get_height
  passes ks got signs mined =
      let (within, same) = get_block_signers-within fuel full pub_key c c' ks got signs in
      let below : full.index ≤ last.index = omega (arith, within, height) in
      let height' : get_height c' ≡ last.index = ground (arith, cached, same) in
      let rounds : get_height c' + 1 - full.index ≡ suc (last.index - full.index) =
        omega (arith, height', below) in
      let unsigned =
        already_mined-rest (last.index - full.index) full.index pub_key c'
          (subst (λ n. already_mined n full.index pub_key c' ≡ done false) rounds mined) in
      (
        height',
        signer-passes fuel full last pub_key c' ks small below
            (get_block_signers-again fuel full pub_key c c' ks got signs) signs unsigned,
      )

  good_signing :
      get_height c' ≡ last.index
      → is_good_signer_for_block fuel (mined_by pub_key (sign_block last)) full c' ≡ done (true, c')
      → is_good_sign_block fuel (mined_by pub_key (sign_block last)) c.last_full_block c'
        ≡ done (true, c')
  unfolding is_good_sign_block
  good_signing h p = ground (arith, cached_full, h, p, guarded.1)

  -- The signing block that is offered for a key has the next index, names the hash of the last block
  -- and has no transaction; and mined by this key, it passes the check of signers on the chain as the
  -- offer leaves it.
  pub get_sign_block-is_good :
      (block.index ≡ last.index + 1)
      × (block.prev_block_hash ≡ last.hash)
      × (block.transaction ≡ none)
      × (is_good_sign_block fuel (mined_by pub_key block) c.last_full_block c' ≡ done (true, c'))
  unfolding new_block
  get_sign_block-is_good =
      let (ks, got, signs, mined, is_block) =
        choose_sign_block-offers fuel full last block pub_key c c' (guarded.0) in
      let (height', passed) = passes ks got signs mined in
      rw is_block (omega (arith, small), refl, refl, good_signing height' passed)
