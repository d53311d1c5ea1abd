-- ===== src/Discovery/Sample.antt =====
-- Stand-ins for the crates that the discovery calls: a text of hexadecimal digits, and a writer of peer
-- information that puts the length in front of every list.
use mathlib.Core.Option
use aether_protocol.Prelude.{
  ℕ, zero, suc, ◌≡◌, refl, Option, none, some, List, [], ◌∷◌, ◌++◌, length, take, drop,
  take-length-append, drop-length-append,
}
use aether_protocol.Multipath.Path.{SocketAddr}
use aether_protocol.Discovery.Message.{Json, PeerInfo}
use aether_protocol.Discovery.MessageRoundTrip.{JsonLawful}

abbrev Reader : Type 0 → Type 0
Reader A = List ℕ → Option (A × List ℕ)

abbrev then_read : {A B : Type 0} → Option (A × List ℕ) → (A → Reader B) → Option (B × List ℕ)
then_read none f = none
then_read (some (a, rest)) f = f a rest

abbrev put_text : List ℕ → List ℕ → List ℕ
put_text s rest = length s ∷ (s ++ rest)

abbrev read_text : Reader (List ℕ)
read_text [] = none
read_text (n ∷ bytes) = some (take n bytes, drop n bytes)

abbrev read_number : Reader ℕ
read_number [] = none
read_number (n ∷ bytes) = some (n, bytes)

read-put_text : (s rest : List ℕ) → read_text (put_text s rest) ≡ some (s, rest)
read-put_text s rest = rw (take-length-append s rest, drop-length-append s rest) refl

abbrev put_addr : SocketAddr → List ℕ → List ℕ
put_addr a rest = put_text a.ip (a.port ∷ rest)

abbrev read_addr : Reader SocketAddr
read_addr bytes = then_read (read_text bytes) λ ip. λ rest.
    then_read (read_number rest) λ port. λ left. some (record { ip = ip; port = port }, left)

read-put_addr : (a : SocketAddr) (rest : List ℕ) → read_addr (put_addr a rest) ≡ some (a, rest)
read-put_addr a rest =
    rw (take-length-append a.ip (a.port ∷ rest), drop-length-append a.ip (a.port ∷ rest)) refl

module _ {A : Type 0} (put : A → List ℕ → List ℕ) (read : Reader A) where
  abbrev put_each : List A → List ℕ → List ℕ
  put_each [] rest = rest
  put_each (x ∷ xs) rest = put x (put_each xs rest)

  abbrev put_list : List A → List ℕ → List ℕ
  put_list xs rest = length xs ∷ put_each xs rest

  abbrev read_each : ℕ → Reader (List A)
  read_each zero bytes = some ([], bytes)
  read_each (suc n) bytes =
      then_read (read bytes)
        λ x. λ rest. then_read (read_each n rest) λ xs. λ left. some (x ∷ xs, left)

  abbrev read_list : Reader (List A)
  read_list bytes = then_read (read_number bytes) read_each

  read-put_each :
      ((x : A) (rest : List ℕ) → read (put x rest) ≡ some (x, rest))
      → (xs : List A) (rest : List ℕ) → read_each (length xs) (put_each xs rest) ≡ some (xs, rest)
  read-put_each law [] rest = refl
  read-put_each law (x ∷ xs) rest = rw (law x (put_each xs rest), read-put_each law xs rest) refl

abbrev pub sample_json : Json PeerInfo
sample_json = record {
  to_vec = λ info. some (
      put_text info.identity_hash (
        put_text info.public_key (
          put_list put_addr read_addr info.addresses (
            info.connection_id
            ∷ info.timestamp
            ∷ info.version
            ∷ put_list put_text read_text info.capabilities []))));
  from_slice = λ bytes.
      Option.map (λ r. r.0)
        (then_read (read_text bytes) λ identity_hash. λ a. then_read (read_text a) λ public_key.
          λ b. then_read (read_list put_addr read_addr b) λ addresses. λ c.
            then_read (read_number c) λ connection_id. λ d. then_read (read_number d) λ timestamp.
              λ e. then_read (read_number e) λ version. λ f.
                then_read (read_list put_text read_text f) λ capabilities. λ rest. some (
                  record {
                    identity_hash = identity_hash;
                    public_key = public_key;
                    addresses = addresses;
                    connection_id = connection_id;
                    timestamp = timestamp;
                    version = version;
                    capabilities = capabilities;
                  },
                  rest,
                ));
}

pub sample_json-JsonLawful : JsonLawful sample_json
sample_json-JsonLawful = record {
  json_round_trip = λ info fits.
      let tail =
        info.connection_id
        ∷ info.timestamp
        ∷ info.version
        ∷ put_list put_text read_text info.capabilities [] in
      let addresses = put_list put_addr read_addr info.addresses tail in
      (
        _,
        refl,
        rw
            (
              take-length-append info.identity_hash (put_text info.public_key addresses),
              drop-length-append info.identity_hash (put_text info.public_key addresses),
              take-length-append info.public_key addresses,
              drop-length-append info.public_key addresses,
              read-put_each put_addr read_addr read-put_addr info.addresses tail,
              read-put_each put_text read_text read-put_text info.capabilities [],
            )
            refl,
      );
}
