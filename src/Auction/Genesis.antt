-- ===== src/Auction/Genesis.antt =====
-- x/auction: the default parameters (types/params.go), the genesis state (types/genesis.go,
-- keeper/genesis.go), the query of the parameters (keeper/grpc_query.go) and `ValidateBasic` of
-- `MsgUpdateParams` (types/msgs.go).
use block_sdk.Prelude.{
  ◌≡◌, ◌≢◌, refl, subst, ap, ◌∙◌, String, Bool, true, some, [], ◌∷◌, pos, Result, ok, err, ◌>>=◌,
  ◌>>◌, guard, map_err, >>=-eq-ok, map_err-eq-ok,
}
use block_sdk.Proposals.{Bytes}
use block_sdk.Auction.{
  AuctionError, sdk_error, invalid_address, panicked, Params, Host, get_params, set_params,
}
use block_sdk.Auction.Bid.{escrow_of}
use block_sdk.Auction.Server.{ParamOps, validate_params}

-- `DefaultParams`, with the address of the module account and the decimal 0
unfoldable pub default_params : {LegacyDec : Type 0} → String → LegacyDec → Params LegacyDec
default_params escrow zero_dec = record {
  max_bundle_size = 2;
  escrow_account_address = some escrow;
  reserve_fee = record { denom = "stake"; amount = some (pos 1) };
  min_bid_increment = record { denom = "stake"; amount = some (pos 1) };
  front_running_protection = true;
  proposer_fee = zero_dec;
}

-- `GenesisState`
pub record GenesisState (LegacyDec : Type 0) : Type 0 where
  pub params : Params LegacyDec

-- `DefaultGenesisState`
unfoldable pub default_genesis_state :
    {LegacyDec : Type 0} → String → LegacyDec → GenesisState LegacyDec
default_genesis_state escrow zero_dec = record { params = default_params escrow zero_dec }

-- `Validate`
unfoldable pub validate_genesis :
    {LegacyDec : Type 0} → ParamOps LegacyDec → GenesisState LegacyDec → Result AuctionError Unit
validate_genesis ops gs = validate_params ops gs.params

-- `ValidateBasic` of `MsgUpdateParams`
unfoldable pub validate_basic_update :
    {LegacyDec : Type 0}
    → (String → Bool)
    → ParamOps LegacyDec
    → String
    → Params LegacyDec
    → Result AuctionError Unit
validate_basic_update is_address ops authority params = do
  guard (is_address authority) invalid_address
  validate_params ops params

-- `if err != nil { panic(err) }`
unfoldable pub or_panics : {A : Type 0} → Result AuctionError A → Result AuctionError A
or_panics (ok a) = ok a
or_panics (err e) = err panicked

-- `QueryParamsResponse`
pub record QueryParamsResponse (LegacyDec : Type 0) : Type 0 where
  pub params : Params LegacyDec
  pub escrow_address_string : String

module _ {S LegacyDec : Type 0} (host : Host S LegacyDec) where
  -- `InitGenesis`
  unfoldable pub init_genesis : GenesisState LegacyDec → S → Result AuctionError S
  init_genesis gs s = or_panics (set_params host gs.params s)

  -- `ExportGenesis`
  unfoldable pub export_genesis : S → Result AuctionError (GenesisState LegacyDec)
  export_genesis s = do params ← or_panics (get_params host s); ok (record { params = params })

  -- `Params` of the query server
  unfoldable pub query_params : S → Result AuctionError (QueryParamsResponse LegacyDec)
  query_params s = do
    params ← get_params host s
    ok (record { params = params; escrow_address_string = escrow_of params })

  -- The store returns what was written last, and the codec gives the parameters back from their
  -- bytes, of which there are some.
  pub record StoreLaws : Type 0 where
    pub get_set : (bz : Bytes) (s : S) → host.get (host.set bz s) ≡ bz
    pub unmarshal_marshal :
        (params : Params LegacyDec) (bz : Bytes)
        → host.marshal params ≡ ok bz
        → host.unmarshal bz ≡ ok params
    pub marshal_nonempty : (params : Params LegacyDec) → host.marshal params ≢ ok []

  or_panics-eq-ok : {A : Type 0} (r : Result AuctionError A) (a : A) → or_panics r ≡ ok a → r ≡ ok a
  unfolding or_panics
  or_panics-eq-ok (ok b) a h = h
  or_panics-eq-ok (err e) a h = absurd (let refused = h in cc)

  read_back :
      (params : Params LegacyDec) (bz : Bytes) (s : S)
      → host.get s ≡ bz
      → host.unmarshal bz ≡ ok params
      → bz ≢ []
      → get_params host s ≡ ok params
  unfolding get_params
  read_back params [] s stored known nonempty = absurd (nonempty refl)
  read_back params (b ∷ bs) s stored known nonempty = rw (stored, get_params, known)

  -- What was set is what is read.
  pub get_params-set_params :
      StoreLaws
      → (params : Params LegacyDec) (s s' : S) → set_params host params s ≡ ok s'
      → get_params host s' ≡ ok params
  unfolding set_params
  get_params-set_params laws params s s' h =
      let (bz, made, stored) = >>=-eq-ok (map_err sdk_error (host.marshal params)) _ h in
      let marshalled = map_err-eq-ok sdk_error (host.marshal params) made in
      let same : host.set bz s ≡ s' = cc in
      subst (λ t. get_params host t ≡ ok params) same
        (read_back params bz (host.set bz s) (laws.get_set bz s)
          (laws.unmarshal_marshal params bz marshalled)
          (λ e. laws.marshal_nonempty params (marshalled ∙ ap ok e)))

  -- The genesis state that is exported after `InitGenesis` is the one that was given, and the query
  -- answers with its parameters.
  pub export_genesis-init_genesis :
      StoreLaws
      → (gs : GenesisState LegacyDec) (s s' : S) → init_genesis gs s ≡ ok s'
      → (export_genesis s' ≡ ok gs)
        × (query_params s'
            ≡ ok (record { params = gs.params; escrow_address_string = escrow_of gs.params }))
  unfolding init_genesis export_genesis query_params or_panics
  export_genesis-init_genesis laws gs s s' h =
      let known =
        get_params-set_params laws gs.params s s'
          (or_panics-eq-ok (set_params host gs.params s) s' h) in
      (rw known refl, rw known refl)
