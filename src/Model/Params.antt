-- ===== src/Model/Params.antt =====
-- src/model/params.rs: the raw values of a form, which bracketed keys nest.
pub mod Param
pub mod Value
pub mod Numbers
pub mod Deserialize
pub mod Keys
pub mod Paths
pub mod RoundTrip
pub mod Lists
