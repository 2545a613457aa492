-- ===== src/Codec.antt =====
-- src/core/hash.ts and src/core/publication.ts: the opaque keys, and the frames of publications.
pub mod Hash
pub mod HashLaws
pub mod Publication
pub mod PublicationLaws
