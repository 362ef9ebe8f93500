-- ===== src/Membership.antt =====
-- etcdserver/api/membership/member.go and cluster.go: the members of a cluster. A string is the list
-- of its bytes. SHA-1, the text of a URL and the digits of a time are the libraries', and stand as
-- parameters. Locks are left out, and the backend, which the cluster only keeps.
pub mod Identity
pub mod Listing
pub mod Keys
pub mod Founding
pub mod Naming
use etcd_cr.Common.{
  ℕ, ◌+◌, ◌*◌, ◌/◌, ◌%◌, ◌^◌, Bool, true, false, not, Option, none, some, List, [], ◌∷◌, ◌++◌, map,
  length, take, ltb, ◌==◌, if◌then◌else◌, Result, ok, err, panic, ◌>>=◌, member_exists, none_member,
}
use etcd_cr.Common.Maps.{lookup, insert}
use etcd_cr.Quorum.{sort_ids}

abbrev pub Bytes : Type 0
Bytes = List ℕ

-- `<` on strings.
abbrev pub less : Bytes → Bytes → Bool
less s [] = false
less [] (y ∷ ys) = true
less (x ∷ xs) (y ∷ ys) = if ltb x y then true else if ltb y x then false else less xs ys

abbrev pub equal : Bytes → Bytes → Bool
equal [] [] = true
equal [] (y ∷ ys) = false
equal (x ∷ xs) [] = false
equal (x ∷ xs) (y ∷ ys) = if x == y then equal xs ys else false

-- Whether a map of names and URLs, in the order of the run, has the name.
abbrev pub has_name : Bytes → List (Bytes × List Bytes) → Bool
has_name name [] = false
has_name name ((n, urls) ∷ m) = if equal n name then true else has_name name m

-- `sort.Strings`
abbrev pub insert_string : Bytes → List Bytes → List Bytes
insert_string s [] = s ∷ []
insert_string s (x ∷ xs) = if less x s then x ∷ insert_string s xs else s ∷ x ∷ xs

unfoldable pub sort_strings : List Bytes → List Bytes
sort_strings [] = []
sort_strings (x ∷ xs) = insert_string x (sort_strings xs)

abbrev pub concat : List Bytes → Bytes
concat [] = []
concat (x ∷ xs) = x ++ concat xs

-- `RaftAttributes` and `Attributes` are embedded in `Member`. A nil slice is `none`.
pub record Member : Type 0 where
  pub id : ℕ
  pub peer_urls : Option (List Bytes)
  pub is_learner : Bool
  pub name : Bytes
  pub client_urls : Option (List Bytes)

-- `binary.BigEndian.Uint64`
unfoldable pub big_endian : Bytes → ℕ
big_endian bytes = value 0 bytes
  where
    value : ℕ → Bytes → ℕ
    value acc [] = acc
    value acc (b ∷ bs) = value (acc * 256 + b) bs

-- `binary.BigEndian.PutUint64`
unfoldable pub put_uint64 : ℕ → Bytes
put_uint64 v =
    v / 2 ^ 56 % 256
    ∷ v / 2 ^ 48 % 256
    ∷ v / 2 ^ 40 % 256
    ∷ v / 2 ^ 32 % 256
    ∷ v / 2 ^ 24 % 256
    ∷ v / 2 ^ 16 % 256
    ∷ v / 2 ^ 8 % 256
    ∷ v % 256
    ∷ []

-- `RaftCluster`, without the version: nothing sets it.
pub record RaftCluster : Type 0 where
  pub local_id : ℕ
  pub cid : ℕ
  pub token : Bytes
  pub members : List (ℕ × Member)
  pub removed : List (ℕ × Bool)
  pub logs : Bool

-- `sha1.Sum`
module _ (sha1 : Bytes → Bytes) where
  -- `newMember`, with the texts of the URLs and of `now.Unix()`, if a time is given.
  unfoldable pub new_member : Bytes → List Bytes → Bytes → Option Bytes → Bool → Member
  new_member name peer_urls cluster_name now is_learner =
      let sorted = sort_strings peer_urls in
      let b = concat sorted ++ cluster_name in
      let dated : Bytes = elim now [ none ↦ b | some digits ↦ b ++ digits ] in
      record {
        id = big_endian (take 8 (sha1 dated));
        peer_urls = some sorted;
        is_learner = is_learner;
        name = name;
        client_urls = none;
      }

-- `Clone`, of a member that may be nil.
unfoldable pub clone : Option Member → Option Member
clone none = none
clone (some m) = some (record {
  id = m.id;
  peer_urls = elim m.peer_urls [ none ↦ none | some us ↦ some us ];
  is_learner = m.is_learner;
  name = m.name;
  client_urls = elim m.client_urls [ none ↦ none | some us ↦ some us ];
})

-- `IsStarted`
unfoldable pub is_started : Member → Bool
is_started m = not (length m.name == 0)

-- `NewCluster`; `logs` tells whether there is a logger.
unfoldable pub new_cluster : Bool → Bytes → RaftCluster
new_cluster logs token = record {
  local_id = 0;
  cid = 0;
  token = token;
  members = [];
  removed = [];
  logs = logs;
}

-- The values of a map, in the order of the run.
abbrev pub values {ℓ} : {V : Type ℓ} → List (ℕ × V) → List V
values [] = []
values ((id, v) ∷ m) = v ∷ values m

-- `MembersByID`
abbrev pub insert_member : Member → List Member → List Member
insert_member m [] = m ∷ []
insert_member m (x ∷ xs) = if ltb x.id m.id then x ∷ insert_member m xs else m ∷ x ∷ xs

unfoldable pub sort_members : List Member → List Member
sort_members [] = []
sort_members (x ∷ xs) = insert_member x (sort_members xs)

abbrev pub member_id : Member → ℕ
member_id m = m.id

abbrev pub clone_member : Member → Member
clone_member m = elim (clone (some m)) [ none ↦ m | some c ↦ c ]

module _ (c : RaftCluster) where
  -- `Members`
  unfoldable pub members_by_id : List Member
  members_by_id = sort_members (map clone_member (values c.members))

  -- `Member`
  unfoldable pub member : ℕ → Option Member
  member id = clone (lookup id c.members)

  -- `MemberIDs`
  unfoldable pub member_ids : List ℕ
  member_ids = sort_ids (map member_id (values c.members))

  -- `IsIDRemoved`
  unfoldable pub is_id_removed : ℕ → Bool
  is_id_removed id = elim (lookup id c.removed) [ none ↦ false | some b ↦ b ]

  -- `SetID`
  unfoldable pub set_id : ℕ → ℕ → RaftCluster
  set_id local_id cid = record c { local_id = local_id; cid = cid }

  -- `UpdateAttributes` only takes the lock.
  unfoldable pub update_attributes : ℕ → Bytes → Option (List Bytes) → RaftCluster
  update_attributes id name client_urls = c

-- The loop of `MemberByName`: a second member of the name panics where there is a logger, and is
-- taken where there is none.
unfoldable pub search_name : Bool → Bytes → Option Member → List Member → Result (Option Member)
search_name logs name found [] = ok found
search_name logs name found (m ∷ ms) = elim (equal m.name name) [
  | false ↦ search_name logs name found ms
  | true ↦ elim found [
    | none ↦ search_name logs name (some m) ms
    | some _ ↦ if logs then panic else search_name logs name (some m) ms
  ]
]

-- `MemberByName`
unfoldable pub member_by_name : RaftCluster → Bytes → Result (Option Member)
member_by_name c name = do found ← search_name c.logs name none (values c.members); ok (clone found)

module _ (sha1 : Bytes → Bytes) where
  -- `genID`
  unfoldable pub gen_id : RaftCluster → RaftCluster
  gen_id c = record c { cid = big_endian (take 8 (sha1 (concat (map put_uint64 (member_ids c))))) }

  -- The loop of `NewClusterFromURLsMap`.
  unfoldable pub add_members :
      Bytes → List (Bytes × List Bytes) → List (ℕ × Member) → Result (List (ℕ × Member))
  add_members token [] members = ok members
  add_members token ((name, urls) ∷ rest) members =
      let m = new_member sha1 name urls token none false in
      elim (lookup m.id members) [
        | some _ ↦ err (member_exists m.id)
        | none ↦ elim (m.id == 0) [
          | true ↦ err none_member
          | false ↦ add_members token rest (insert m.id m members)
        ]
      ]

  -- `NewClusterFromURLsMap`, of the entries of the map in the order of the run.
  unfoldable pub new_cluster_from_urls_map :
      Bool → Bytes → List (Bytes × List Bytes) → Result RaftCluster
  new_cluster_from_urls_map logs token urlsmap = do
    members ← add_members token urlsmap (new_cluster logs token).members
    ok (gen_id (record (new_cluster logs token) { members = members }))
