-- ===== src/Options/Named.antt =====
-- Channels without a name in --channel-config (fairmq/options/FairMQSuboptParser.cxx).
use bachelor_fair_mq.Base.{
  ℕ, List, [], ◌∷◌, ◌++◌, Text, codes, none, some, Bool, true, false, text_eq, text_eq_refl,
  if◌then◌else◌, ok, throws, or_throw, lookup, insert, lookup-insert, All, ◌≡◌, ◌≢◌, refl, subst,
  ap, bind-returns, ok-injective, Bool-cases, inl, inr, ◌⊎◌, ◌∙◌, sym,
}
use bachelor_fair_mq.Options.{PropertyTree}
use bachelor_fair_mq.Options.Parser.{
  ChannelMap, require_text, read_channel, read_channels, channel_parser, read_devices,
  device_parser, ptree_to_mq_map, get_text, device_key_of,
}
use bachelor_fair_mq.Options.SubOptions.{
  SubOption, option_key, Found, option, bare, unknown, Token, no_options, leaf, read_option,
  read_options, channel_properties, with_sockets, read_tokens, device_tree, user_parser, name,
  address, type, method, transport, snd_buf_size, rcv_buf_size, snd_kernel_size, rcv_kernel_size,
  rate_logging, num_sockets,
}

-- A sub-option that gives the name of a channel, and a list with one.
abbrev pub is_name : Found → Bool
is_name (option name v) = true
is_name (option o v) = false
is_name (bare o) = false
is_name unknown = false

abbrev pub names : List Found → Bool
names [] = false
names (o ∷ os) = if is_name o then true else names os

module _ (ptree : PropertyTree) where
  open ptree use {Tree, node, value, children, value-node, children-node}

  abbrev Unnamed : Token ptree → Type 0
  Unnamed t = lookup (codes "name") (t.properties) ≡ none

  insert-Unnamed :
      (o : SubOption) (v : Text) (t : Token ptree)
      → text_eq (option_key o) (codes "name") ≡ false
      → Unnamed t
      → lookup (codes "name") (insert (option_key o) (leaf ptree v) t.properties) ≡ none
  insert-Unnamed o v t e h =
      lookup-insert (option_key o) (codes "name") (leaf ptree v) t.properties ∙ rw e h

  read_option-name :
      (o : Found) (t t' : Token ptree)
      → read_option ptree o t ≡ ok t'
      → Unnamed t
      → (is_name o ≡ true) ⊎ Unnamed t'
  unfolding read_option text_eq
  read_option-name (option name v) t t' e h = inl refl
  read_option-name (option address v) t t' e h = inr (subst Unnamed (ok-injective e) h)
  read_option-name (option type v) t t' e h =
      inr (subst Unnamed (ok-injective e) (insert-Unnamed type v t refl h))
  read_option-name (option method v) t t' e h =
      inr (subst Unnamed (ok-injective e) (insert-Unnamed method v t refl h))
  read_option-name (option transport v) t t' e h =
      inr (subst Unnamed (ok-injective e) (insert-Unnamed transport v t refl h))
  read_option-name (option snd_buf_size v) t t' e h =
      inr (subst Unnamed (ok-injective e) (insert-Unnamed snd_buf_size v t refl h))
  read_option-name (option rcv_buf_size v) t t' e h =
      inr (subst Unnamed (ok-injective e) (insert-Unnamed rcv_buf_size v t refl h))
  read_option-name (option snd_kernel_size v) t t' e h =
      inr (subst Unnamed (ok-injective e) (insert-Unnamed snd_kernel_size v t refl h))
  read_option-name (option rcv_kernel_size v) t t' e h =
      inr (subst Unnamed (ok-injective e) (insert-Unnamed rcv_kernel_size v t refl h))
  read_option-name (option rate_logging v) t t' e h =
      inr (subst Unnamed (ok-injective e) (insert-Unnamed rate_logging v t refl h))
  read_option-name (option num_sockets v) t t' e h =
      inr (subst Unnamed (ok-injective e) (insert-Unnamed num_sockets v t refl h))
  read_option-name (bare name) t t' e h = cc
  read_option-name (bare address) t t' e h = cc
  read_option-name (bare type) t t' e h = inr (subst Unnamed (ok-injective e) h)
  read_option-name (bare method) t t' e h = inr (subst Unnamed (ok-injective e) h)
  read_option-name (bare transport) t t' e h = inr (subst Unnamed (ok-injective e) h)
  read_option-name (bare snd_buf_size) t t' e h = inr (subst Unnamed (ok-injective e) h)
  read_option-name (bare rcv_buf_size) t t' e h = inr (subst Unnamed (ok-injective e) h)
  read_option-name (bare snd_kernel_size) t t' e h = inr (subst Unnamed (ok-injective e) h)
  read_option-name (bare rcv_kernel_size) t t' e h = inr (subst Unnamed (ok-injective e) h)
  read_option-name (bare rate_logging) t t' e h = inr (subst Unnamed (ok-injective e) h)
  read_option-name (bare num_sockets) t t' e h = inr (subst Unnamed (ok-injective e) h)
  read_option-name unknown t t' e h = inr (subst Unnamed (ok-injective e) h)

  read_options-name :
      (os : List Found) (t t' : Token ptree)
      → read_options ptree os t ≡ ok t'
      → Unnamed t
      → (names os ≡ true) ⊎ Unnamed t'
  unfolding read_options
  read_options-name [] t t' e h = inr (subst Unnamed (ok-injective e) h)
  read_options-name (o ∷ os) t t' e h =
      let (t1, e1, e2) = bind-returns _ (read_option ptree o t) e in
      elim (read_option-name o t t1 e1 h) [
        | inl n ↦ inl (rw n refl)
        | inr h1 ↦ elim (read_options-name os t1 t' e2 h1) [
          | inl n ↦
              inl (elim (Bool-cases (is_name o)) [ inl b ↦ rw b refl | inr b ↦ rw (b, n) refl ])
          | inr h2 ↦ inr h2
        ]
      ]

  -- A channel that the parser can name.
  abbrev IsNamed : (Text × Tree) → Type 0
  IsNamed e = lookup (codes "name") (children (e.1)) ≢ none

  lookup-end :
      (k j : Text) (t : Tree) (m : List (Text × Tree))
      → text_eq j k ≡ false
      → lookup k (m ++ (j, t) ∷ []) ≡ lookup k m
  unfolding lookup
  lookup-end k j t [] e = rw e refl
  lookup-end k j t ((i, u) ∷ m) e =
      ap (λ r. if text_eq i k then some u else r) (lookup-end k j t m e)

  channel_properties-Unnamed :
      (n : Text) (t : Token ptree)
      → Unnamed t
      → lookup (codes "name") (with_sockets ptree n t) ≡ none
  unfolding text_eq
  channel_properties-Unnamed [] t h = h
  channel_properties-Unnamed (c ∷ cs) t h =
      lookup-end (codes "name") (codes "sockets") (node [] (t.sockets)) (t.properties) refl ∙ h

  read_channels-Named :
      (qs : List (Text × Tree)) (m m' : ChannelMap)
      → read_channels ptree qs m ≡ ok m'
      → All IsNamed qs
  unfolding read_channels read_channel
  read_channels-Named [] m m' h = tt
  read_channels-Named ((k, q) ∷ qs) m m' h =
      let ((_, cs), e, h') = bind-returns _ (read_channel ptree q) h in
      let (n, e', _) = bind-returns _ (require_text ptree q (codes "name")) e in
      (λ u. absurd (named u e'), read_channels-Named qs _ m' h')
    where
      named :
          {n : Text}
          → lookup (codes "name") (children q) ≡ none
          → require_text ptree q (codes "name") ≢ ok n
      named u e = cc

  module _ (sub_options : Text → List Found) where
    read_tokens-Named :
        (tokens : List Text) (channels : List (Text × Tree))
        → read_tokens ptree sub_options tokens ≡ ok channels
        → All IsNamed channels
        → All (λ token. names (sub_options token) ≡ true) tokens
    unfolding read_tokens lookup
    read_tokens-Named [] channels h named = tt
    read_tokens-Named (token ∷ tokens) channels h named =
        let (t, e, k) =
          bind-returns _ (read_options ptree (sub_options token) (no_options ptree)) h in
        let (rest, e', k') = bind-returns _ (read_tokens ptree sub_options tokens) k in
        let named' : All IsNamed (([], node [] (channel_properties ptree t)) ∷ rest) =
          subst (All IsNamed) (sym (ok-injective k')) named in
        (
          elim (read_options-name (sub_options token) (no_options ptree) t e refl) [
            | inl n ↦ n
            | inr u ↦ absurd (
                named'.0 (
                  ap (lookup (codes "name")) (children-node _ _)
                  ∙ channel_properties-Unnamed (t.channel_name) t u))
          ],
          read_tokens-Named tokens rest e' (named'.1),
        )

  -- What is left of the parser on the tree of one device.
  options_of :
      (root : Text) (options t : Tree)
      → or_throw (lookup root (children (node [] ((codes "fairMQOptions", options) ∷ [])))) ≡ ok t
      → options ≡ t
  unfolding lookup
  options_of root options t e = elim (Bool-cases (text_eq (codes "fairMQOptions") root)) [
    | inl b ↦ ok-injective (rw (children-node [] ((codes "fairMQOptions", options) ∷ []), b) at e)
    | inr b ↦
        let e' : throws ≡ ok t =
          rw (children-node [] ((codes "fairMQOptions", options) ∷ []), b) at e in
        cc
  ]

  channel_parser-channels :
      (v : Tree) (channels : List (Text × Tree)) (m : ChannelMap)
      → channel_parser ptree
          (children (node [] ((codes "id", v) ∷ (codes "channels", node [] channels) ∷ [])))
          []
        ≡ ok m
      → read_channels ptree channels [] ≡ ok m
  unfolding channel_parser text_eq
  channel_parser-channels v channels m h =
      let fields : List (Text × Tree) =
        (codes "id", v) ∷ (codes "channels", node [] channels) ∷ [] in
      let (m', e, k) =
        bind-returns (channel_parser ptree []) (read_channels ptree channels [])
          (rw (children-node [] fields, children-node [] channels) at h) in
      e ∙ k

  read_devices-channels :
      (c : ℕ) (cs : Text) (channels : List (Text × Tree)) (m : ChannelMap)
      → read_devices ptree
          (c ∷ cs)
          ((
            [],
            node [] ((codes "id", leaf ptree (c ∷ cs)) ∷ (codes "channels", node [] channels) ∷ []),
          )
            ∷ [])
          []
        ≡ ok m
      → read_channels ptree channels [] ≡ ok m
  unfolding read_devices lookup text_eq
  read_devices-channels c cs channels m h =
      let fields : List (Text × Tree) =
        (codes "id", leaf ptree (c ∷ cs)) ∷ (codes "channels", node [] channels) ∷ [] in
      let key : device_key_of ptree (node [] fields) ≡ ok (c ∷ cs) =
        rw
          (
            device_key_of,
            get_text,
            children-node [] fields,
            require_text,
            children-node [] fields,
            value-node (c ∷ cs) [],
          )
          refl in
      let (m', e, k) =
        bind-returns ok (channel_parser ptree (children (node [] fields)) [])
          (rw (read_devices, key, text_eq_refl (c ∷ cs)) at h) in
      channel_parser-channels (leaf ptree (c ∷ cs)) channels m (e ∙ k)

  device_parser-channels :
      (c : ℕ) (cs : Text) (channels : List (Text × Tree)) (root : Text) (m : ChannelMap)
      → ptree_to_mq_map ptree (device_tree ptree (c ∷ cs) channels) (c ∷ cs) root ≡ ok m
      → read_channels ptree channels [] ≡ ok m
  unfolding ptree_to_mq_map device_parser text_eq
  device_parser-channels c cs channels root m h =
      let device =
        node [] ((codes "id", leaf ptree (c ∷ cs)) ∷ (codes "channels", node [] channels) ∷ []) in
      let devices = node [] (([], device) ∷ []) in
      let options = node [] ((codes "devices", devices) ∷ []) in
      let (t, e, k) =
        bind-returns _ (or_throw (lookup root (children (device_tree ptree (c ∷ cs) channels))))
          h in
      let h1 : device_parser ptree (c ∷ cs) (children options) [] ≡ ok m =
        subst (λ t. device_parser ptree (c ∷ cs) (children t) [] ≡ ok m)
          (sym (options_of root options t e)) k in
      let (m', e', k') = bind-returns ok (read_devices ptree (c ∷ cs) (([], device) ∷ []) []) (
        rw
          (
            children-node [] ((codes "devices", devices) ∷ []),
            device_parser,
            children-node [] (([], device) ∷ []),
          )
          at h1) in
      read_devices-channels c cs channels m (e' ∙ k')

  module _ (sub_options : Text → List Found) where
    -- Where the parser of --channel-config returns a map, each of the tokens has a sub-option that names
    -- its channel.
    pub user_parser-Named :
        (tokens : List Text) (device_id root : Text) (m : ChannelMap)
        → user_parser ptree sub_options tokens device_id root ≡ ok m
        → All (λ token. names (sub_options token) ≡ true) tokens
    unfolding user_parser ptree_to_mq_map
    user_parser-Named tokens [] root m h =
        let (channels, e, k) = bind-returns _ (read_tokens ptree sub_options tokens) h in cc
    user_parser-Named tokens (c ∷ cs) root m h =
        let (channels, e, k) = bind-returns _ (read_tokens ptree sub_options tokens) h in
        read_tokens-Named sub_options tokens channels e
          (read_channels-Named channels [] m (device_parser-channels c cs channels root m k))
