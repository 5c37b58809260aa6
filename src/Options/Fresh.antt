-- ===== src/Options/Fresh.antt =====
-- What the parser makes of a channel (fairmq/options/FairMQParser.cxx).
use bachelor_fair_mq.Base.{
  ℕ, zero, suc, pos, List, [], ◌∷◌, Text, codes, none, true, false, text_eq, ok, replicate, All,
  All-append, All-replicate, ◌≡◌, refl, subst, ap, bind-returns, ok-injective, Bool-cases, inl, inr,
  arith,
}
use bachelor_fair_mq.Channel.{
  Channel, new, copy, update_type, update_method, update_address, update_transport,
  update_snd_buf_size, update_rcv_buf_size, update_snd_kernel_size, update_rcv_kernel_size,
  update_rate_logging,
}
use bachelor_fair_mq.Options.{PropertyTree}
use bachelor_fair_mq.Options.Parser.{
  ChannelMap, positive, set_texts, set_sizes, configure, read_sockets, all_sockets, socket_parser,
  read_channel, get_int, require_text,
}

-- A channel with no socket and no factory, not known to be valid, and to be attached.
pub record IsFresh (c : Channel) : Type 0 where
  pub unattached : c.socket ≡ none
  pub unmade : c.factory ≡ none
  pub unchecked : c.is_valid ≡ false
  pub touched : c.modified ≡ true

-- A list of subchannels that are fresh, and not empty.
abbrev pub IsReady : List Channel → Type 0
IsReady [] = ⊥
IsReady (c ∷ cs) = IsFresh c × All IsFresh cs

abbrev pub AllReady : ChannelMap → Type 0
AllReady m = All (λ e. IsReady (e.1)) m

new-IsFresh : IsFresh new
unfolding new
new-IsFresh = ground arith

copy-IsFresh : (c : Channel) → c.modified ≡ true → IsFresh (copy c)
unfolding copy
copy-IsFresh c m = ground arith

update_transport-IsFresh :
    (c d : Channel) (v : Text) → IsFresh c → update_transport c v ≡ ok d → IsFresh d
unfolding update_transport
update_transport-IsFresh c d v f h = ground arith

module _ (ptree : PropertyTree) where
  open ptree use {Tree, children}

  set_texts-IsFresh : (t : Tree) (c : Channel) → IsFresh c → IsFresh (set_texts ptree t c)
  unfolding set_texts update_type update_method update_address
  set_texts-IsFresh t c f = record {
    unattached = f.unattached;
    unmade = f.unmade;
    unchecked = refl;
    touched = refl;
  }

  set_sizes-IsFresh : (t : Tree) (c : Channel) → IsFresh c → IsFresh (set_sizes ptree t c)
  unfolding set_sizes update_snd_buf_size update_rcv_buf_size update_snd_kernel_size
      update_rcv_kernel_size update_rate_logging
  set_sizes-IsFresh t c f = record {
    unattached = f.unattached;
    unmade = f.unmade;
    unchecked = refl;
    touched = refl;
  }

  configure-IsFresh :
      (t : Tree) (c d : Channel) → IsFresh c → configure ptree t c ≡ ok d → IsFresh d
  unfolding configure
  configure-IsFresh t c d f h =
      let (c4, e, k) = bind-returns (λ c4. ok (set_sizes ptree t c4)) _ h in
      subst IsFresh (ok-injective k) (
        set_sizes-IsFresh t c4
          (update_transport-IsFresh (set_texts ptree t c) c4 _ (set_texts-IsFresh t c f) e))

  read_sockets-AllFresh :
      (common : Channel) (qs : List (Text × Tree)) (cs : List Channel)
      → IsFresh common
      → read_sockets ptree common qs ≡ ok cs
      → All IsFresh cs
  unfolding read_sockets
  read_sockets-AllFresh common [] cs f h = subst (All IsFresh) (ok-injective h) tt
  read_sockets-AllFresh common ((_, q) ∷ qs) cs f h =
      let (c, e, k) = bind-returns _ (configure ptree q (copy common)) h in
      let (rest, e', k') = bind-returns _ (read_sockets ptree common qs) k in
      subst (All IsFresh) (ok-injective k') (
        copy-IsFresh c
            (configure-IsFresh q (copy common) c (copy-IsFresh common (f.touched)) e).touched,
        read_sockets-AllFresh common qs rest f e',
      )

  all_sockets-AllFresh :
      (common : Channel) (ps : List (Text × Tree)) (cs : List Channel)
      → IsFresh common
      → all_sockets ptree common ps ≡ ok cs
      → All IsFresh cs
  unfolding all_sockets
  all_sockets-AllFresh common [] cs f h = subst (All IsFresh) (ok-injective h) tt
  all_sockets-AllFresh common ((key, p) ∷ ps) cs f h =
      elim (Bool-cases (text_eq key (codes "sockets"))) [
        | inl e ↦
            let (here, e', k) =
              bind-returns _ (read_sockets ptree common (children p)) (rw e at h) in
            let (more, e'', k') = bind-returns _ (all_sockets ptree common ps) k in
            subst (All IsFresh) (ok-injective k') (
              All-append IsFresh here more (read_sockets-AllFresh common (children p) here f e')
                (all_sockets-AllFresh common ps more f e''))
        | inr e ↦ all_sockets-AllFresh common ps cs f (rw e at h)
      ]

  socket_parser-IsReady :
      (common : Channel) (t : Tree) (cs : List Channel)
      → IsFresh common
      → socket_parser ptree common t ≡ ok cs
      → IsReady cs
  unfolding socket_parser
  socket_parser-IsReady common t cs f h =
      let (found, e, k) = bind-returns _ (all_sockets ptree common (children t)) h in
      subst IsReady (ok-injective k)
        (some_channels found (all_sockets-AllFresh common (children t) found f e))
    where
      some_channels :
          (found : List Channel)
          → All IsFresh found
          → IsReady (elim found [ [] ↦ copy common ∷ [] | c ∷ cs ↦ c ∷ cs ])
      some_channels [] fs = (copy-IsFresh common (f.touched), tt)
      some_channels (c ∷ cs) fs = fs

  pub read_channel-IsReady :
      (q : Tree) (name : Text) (cs : List Channel)
      → read_channel ptree q ≡ ok (name, cs)
      → IsReady cs
  unfolding read_channel
  read_channel-IsReady q name cs h =
      let (n, e, k) = bind-returns _ (require_text ptree q (codes "name")) h in
      let (common, e', k') = bind-returns _ (configure ptree q new) k in
      let (channels, e'', k'') = bind-returns _ _ k' in
      subst IsReady (ap (λ (r : Text × List Channel). r.1) (ok-injective k'')) (
        counted common (configure-IsFresh q new common new-IsFresh e')
          (positive (get_int ptree q (codes "numSockets") (pos 0))) channels e'')
    where
      counted :
          (common : Channel)
          → IsFresh common
          → (n : ℕ) (channels : List Channel)
          → elim n [ zero ↦ socket_parser ptree common q | n ↦ ok (replicate n (copy common)) ]
            ≡ ok channels
          → IsReady channels
      counted common f zero channels e = socket_parser-IsReady common q channels f e
      counted common f (suc n) channels e = subst IsReady (ok-injective e) (
        copy-IsFresh common (f.touched),
        All-replicate IsFresh n (copy common) (copy-IsFresh common (f.touched)),
      )
