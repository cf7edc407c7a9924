-- ===== src/Http/Trust.antt =====
-- The client address cannot be forged: forwarded headers count for trusted peers only.
use nim_near.Prelude.{
  ℕ, ◌≡◌, refl, sym, ap, subst, ◌∙◌, inl, inr, true, false, none, some, List, [], ◌∷◌, ◌++◌,
  Option-cases, Text, trim_space, is_empty, reverse, All,
}
use nim_near.Http.ClientIp.{
  Net, TrustedProxies, Headers, trusts, parse_ip, first_untrusted, client_from_forwarded,
  forwarded_client, resolve, split_comma, unparsed_client,
}

module _ (net : Net) (trusted : TrustedProxies) where
  resolve-unparsed :
      (r : Headers)
      → parse_ip net r.remote_addr ≡ none
      → resolve net trusted r ≡ unparsed_client net r.remote_addr
  unfolding resolve
  resolve-unparsed r f = rw (f, resolve) refl

  resolve-own :
      (r : Headers) (ip : ℕ)
      → parse_ip net r.remote_addr ≡ some ip
      → trusts trusted ip ≡ false
      → resolve net trusted r ≡ net.addr_text ip
  unfolding resolve
  resolve-own r ip f u = rw (f, u, resolve) refl

  resolve-behind :
      (r : Headers) (remote ip : ℕ)
      → parse_ip net r.remote_addr ≡ some remote
      → trusts trusted remote ≡ true
      → forwarded_client net trusted r ≡ some ip
      → resolve net trusted r ≡ net.addr_text ip
  unfolding resolve
  resolve-behind r remote ip f t c = rw (f, t, c, resolve) refl

  -- A peer that is no trusted proxy is resolved to its own address, whatever headers it sends.
  pub resolve-untrusted :
      (r s : Headers)
      → r.remote_addr ≡ s.remote_addr
      → ((ip : ℕ) → parse_ip net r.remote_addr ≡ some ip → trusts trusted ip ≡ false)
      → resolve net trusted r ≡ resolve net trusted s
  resolve-untrusted r s e h = elim (Option-cases (parse_ip net r.remote_addr)) [
    | inl f ↦
        resolve-unparsed r f
        ∙ ap (unparsed_client net) e
        ∙ sym (resolve-unparsed s (subst (λ x. parse_ip net x ≡ none) e f))
    | inr (ip, f) ↦
        resolve-own r ip f (h ip f)
        ∙ sym (resolve-own s ip (subst (λ x. parse_ip net x ≡ some ip) e f) (h ip f))
  ]

  -- Parts of the header that are trusted proxies or no addresses.
  abbrev pub IsHop : Text → Type 0
  IsHop part = (ip : ℕ) → parse_ip net part ≡ some ip → trusts trusted ip ≡ true

  first_untrusted-skips :
      (hops rest : List Text)
      → All IsHop hops
      → first_untrusted net trusted (hops ++ rest) ≡ first_untrusted net trusted rest
  unfolding first_untrusted
  first_untrusted-skips [] rest h = refl
  first_untrusted-skips (part ∷ hops) rest h = elim (Option-cases (parse_ip net part)) [
    | inl e ↦ rw (e, first_untrusted) (first_untrusted-skips hops rest h.1)
    | inr (ip, e) ↦ rw (e, h.0 ip e, first_untrusted) (first_untrusted-skips hops rest h.1)
  ]

  first_untrusted-here :
      (part : Text) (rest : List Text) (ip : ℕ)
      → parse_ip net part ≡ some ip
      → trusts trusted ip ≡ false
      → first_untrusted net trusted (part ∷ rest) ≡ some ip
  unfolding first_untrusted
  first_untrusted-here part rest ip p u = rw (p, u, first_untrusted) refl

  client_from_forwarded-found :
      (header : Text) (ip : ℕ)
      → first_untrusted net trusted (reverse (split_comma header)) ≡ some ip
      → client_from_forwarded net trusted header ≡ some ip
  unfolding client_from_forwarded
  client_from_forwarded-found header ip h = rw (h, client_from_forwarded) refl

  forwarded_client-found :
      (r : Headers) (ip : ℕ)
      → is_empty (trim_space r.forwarded_for) ≡ false
      → client_from_forwarded net trusted (trim_space r.forwarded_for) ≡ some ip
      → forwarded_client net trusted r ≡ some ip
  unfolding forwarded_client
  forwarded_client-found r ip n h = rw (n, h, forwarded_client) refl

  -- When the peer is a trusted proxy and X-Forwarded-For is not blank, the client is the last part
  -- of that header that is an address and no trusted proxy: what stands before it, which the client
  -- itself may have sent, does not matter.
  pub resolve-forwarded :
      (r : Headers) (remote ip : ℕ) (hops forged : List Text) (part : Text)
      → parse_ip net r.remote_addr ≡ some remote
      → trusts trusted remote ≡ true
      → is_empty (trim_space r.forwarded_for) ≡ false
      → reverse (split_comma (trim_space r.forwarded_for)) ≡ hops ++ (part ∷ forged)
      → All IsHop hops
      → parse_ip net part ≡ some ip
      → trusts trusted ip ≡ false
      → resolve net trusted r ≡ net.addr_text ip
  resolve-forwarded r remote ip hops forged part e t n parts hop p u =
      resolve-behind r remote ip e t (
        forwarded_client-found r ip n
          (client_from_forwarded-found (trim_space r.forwarded_for) ip chosen))
    where
      chosen :
          first_untrusted net trusted (reverse (split_comma (trim_space r.forwarded_for))) ≡ some ip
      chosen =
          rw parts (
            first_untrusted-skips hops (part ∷ forged) hop
            ∙ first_untrusted-here part forged ip p u)
