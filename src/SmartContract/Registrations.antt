-- ===== src/SmartContract/Registrations.antt =====
-- neo/VM/InteropService.py (InteropService), and the registrations of neo/SmartContract/StateReader.py
-- and StateMachine.py.
use neo_python.Prelude.{List, String, [], ℕ, ◌∷◌}

-- Register and RegisterWithPrice with the names of their arguments.
pub data Registration : Type 0 where
  register : String → String → Registration
  register_with_price : String → String → ℕ → Registration

-- InteropService.__init__
abbrev pub base_registrations : List Registration
base_registrations =
    register "System.ExecutionEngine.GetScriptContainer" "GetScriptContainer"
    ∷ register "System.ExecutionEngine.GetExecutingScriptHash" "GetExecutingScriptHash"
    ∷ register "System.ExecutionEngine.GetCallingScriptHash" "GetCallingScriptHash"
    ∷ register "System.ExecutionEngine.GetEntryScriptHash" "GetEntryScriptHash"
    ∷ []

-- StateReader.__init__
abbrev pub reader_registrations : List Registration
reader_registrations =
    register_with_price "System.Runtime.Platform" "Runtime_Platform" 1
    ∷ register_with_price "System.Runtime.GetTrigger" "Runtime_GetTrigger" 1
    ∷ register_with_price "System.Runtime.CheckWitness" "Runtime_CheckWitness" 200
    ∷ register_with_price "System.Runtime.Notify" "Runtime_Notify" 1
    ∷ register_with_price "System.Runtime.Log" "Runtime_Log" 1
    ∷ register_with_price "System.Runtime.GetTime" "Runtime_GetCurrentTime" 1
    ∷ register_with_price "System.Runtime.Serialize" "Runtime_Serialize" 1
    ∷ register_with_price "System.Runtime.Deserialize" "Runtime_Deserialize" 1
    ∷ register_with_price "System.Blockchain.GetHeight" "Blockchain_GetHeight" 1
    ∷ register_with_price "System.Blockchain.GetHeader" "Blockchain_GetHeader" 100
    ∷ register_with_price "System.Blockchain.GetBlock" "Blockchain_GetBlock" 200
    ∷ register_with_price "System.Blockchain.GetTransaction" "Blockchain_GetTransaction" 200
    ∷ register_with_price "System.Blockchain.GetTransactionHeight" "Blockchain_GetTransactionHeight"
        100
    ∷ register_with_price "System.Blockchain.GetContract" "Blockchain_GetContract" 100
    ∷ register_with_price "System.Header.GetIndex" "Header_GetIndex" 1
    ∷ register_with_price "System.Header.GetHash" "Header_GetHash" 1
    ∷ register_with_price "System.Header.GetPrevHash" "Header_GetPrevHash" 1
    ∷ register_with_price "System.Header.GetTimestamp" "Header_GetTimestamp" 1
    ∷ register_with_price "System.Block.GetTransactionCount" "Block_GetTransactionCount" 1
    ∷ register_with_price "System.Block.GetTransactions" "Block_GetTransactions" 1
    ∷ register_with_price "System.Block.GetTransaction" "Block_GetTransaction" 1
    ∷ register_with_price "System.Transaction.GetHash" "Transaction_GetHash" 1
    ∷ register_with_price "System.Storage.GetContext" "Storage_GetContext" 1
    ∷ register_with_price "System.Storage.GetReadOnlyContext" "Storage_GetReadOnlyContext" 1
    ∷ register_with_price "System.Storage.Get" "Storage_Get" 100
    ∷ register "System.Storage.Put" "Storage_Put"
    ∷ register "System.Storage.PutEx" "Storage_PutEx"
    ∷ register_with_price "System.Storage.Delete" "Storage_Delete" 100
    ∷ register_with_price "System.StorageContext.AsReadOnly" "StorageContext_AsReadOnly" 1
    ∷ []

-- StateMachine.__init__
abbrev pub machine_registrations : List Registration
machine_registrations =
    register_with_price "Neo.Runtime.GetTrigger" "Runtime_GetTrigger" 1
    ∷ register_with_price "Neo.Runtime.CheckWitness" "Runtime_CheckWitness" 200
    ∷ register_with_price "Neo.Runtime.Notify" "Runtime_Notify" 1
    ∷ register_with_price "Neo.Runtime.Log" "Runtime_Log" 1
    ∷ register_with_price "Neo.Runtime.GetTime" "Runtime_GetCurrentTime" 1
    ∷ register_with_price "Neo.Runtime.Serialize" "Runtime_Serialize" 1
    ∷ register_with_price "Neo.Runtime.Deserialize" "Runtime_Deserialize" 1
    ∷ register_with_price "Neo.Blockchain.GetHeight" "Blockchain_GetHeight" 1
    ∷ register_with_price "Neo.Blockchain.GetHeader" "Blockchain_GetHeader" 100
    ∷ register_with_price "Neo.Blockchain.GetBlock" "Blockchain_GetBlock" 200
    ∷ register_with_price "Neo.Blockchain.GetTransaction" "Blockchain_GetTransaction" 100
    ∷ register_with_price "Neo.Blockchain.GetTransactionHeight" "Blockchain_GetTransactionHeight"
        100
    ∷ register_with_price "Neo.Blockchain.GetAccount" "Blockchain_GetAccount" 100
    ∷ register_with_price "Neo.Blockchain.GetValidators" "Blockchain_GetValidators" 100
    ∷ register_with_price "Neo.Blockchain.GetAsset" "Blockchain_GetAsset" 100
    ∷ register_with_price "Neo.Blockchain.GetContract" "Blockchain_GetContract" 100
    ∷ register_with_price "Neo.Header.GetHash" "Header_GetHash" 1
    ∷ register_with_price "Neo.Header.GetVersion" "Header_GetVersion" 1
    ∷ register_with_price "Neo.Header.GetPrevHash" "Header_GetPrevHash" 1
    ∷ register_with_price "Neo.Header.GetMerkleRoot" "Header_GetMerkleRoot" 1
    ∷ register_with_price "Neo.Header.GetTimestamp" "Header_GetTimestamp" 1
    ∷ register_with_price "Neo.Header.GetIndex" "Header_GetIndex" 1
    ∷ register_with_price "Neo.Header.GetConsensusData" "Header_GetConsensusData" 1
    ∷ register_with_price "Neo.Header.GetNextConsensus" "Header_GetNextConsensus" 1
    ∷ register_with_price "Neo.Block.GetTransactionCount" "Block_GetTransactionCount" 1
    ∷ register_with_price "Neo.Block.GetTransactions" "Block_GetTransactions" 1
    ∷ register_with_price "Neo.Block.GetTransaction" "Block_GetTransaction" 1
    ∷ register_with_price "Neo.Transaction.GetHash" "Transaction_GetHash" 1
    ∷ register_with_price "Neo.Transaction.GetType" "Transaction_GetType" 1
    ∷ register_with_price "Neo.Transaction.GetAttributes" "Transaction_GetAttributes" 1
    ∷ register_with_price "Neo.Transaction.GetInputs" "Transaction_GetInputs" 1
    ∷ register_with_price "Neo.Transaction.GetOutputs" "Transaction_GetOutputs" 1
    ∷ register_with_price "Neo.Transaction.GetReferences" "Transaction_GetReferences" 200
    ∷ register_with_price "Neo.Transaction.GetUnspentCoins" "Transaction_GetUnspentCoins" 200
    ∷ register_with_price "Neo.Transaction.GetWitnesses" "Transaction_GetWitnesses" 200
    ∷ register_with_price "Neo.InvocationTransaction.GetScript" "InvocationTransaction_GetScript" 1
    ∷ register_with_price "Neo.Witness.GetVerificationScript" "Witness_GetVerificationScript" 100
    ∷ register_with_price "Neo.Attribute.GetUsage" "Attribute_GetUsage" 1
    ∷ register_with_price "Neo.Attribute.GetData" "Attribute_GetData" 1
    ∷ register_with_price "Neo.Input.GetHash" "Input_GetHash" 1
    ∷ register_with_price "Neo.Input.GetIndex" "Input_GetIndex" 1
    ∷ register_with_price "Neo.Output.GetAssetId" "Output_GetAssetId" 1
    ∷ register_with_price "Neo.Output.GetValue" "Output_GetValue" 1
    ∷ register_with_price "Neo.Output.GetScriptHash" "Output_GetScriptHash" 1
    ∷ register_with_price "Neo.Account.GetScriptHash" "Account_GetScriptHash" 1
    ∷ register_with_price "Neo.Account.GetVotes" "Account_GetVotes" 1
    ∷ register_with_price "Neo.Account.GetBalance" "Account_GetBalance" 1
    ∷ register_with_price "Neo.Account.IsStandard" "Account_IsStandard" 100
    ∷ register "Neo.Asset.Create" "Asset_Create"
    ∷ register "Neo.Asset.Renew" "Asset_Renew"
    ∷ register_with_price "Neo.Asset.GetAssetId" "Asset_GetAssetId" 1
    ∷ register_with_price "Neo.Asset.GetAssetType" "Asset_GetAssetType" 1
    ∷ register_with_price "Neo.Asset.GetAmount" "Asset_GetAmount" 1
    ∷ register_with_price "Neo.Asset.GetAvailable" "Asset_GetAvailable" 1
    ∷ register_with_price "Neo.Asset.GetPrecision" "Asset_GetPrecision" 1
    ∷ register_with_price "Neo.Asset.GetOwner" "Asset_GetOwner" 1
    ∷ register_with_price "Neo.Asset.GetAdmin" "Asset_GetAdmin" 1
    ∷ register_with_price "Neo.Asset.GetIssuer" "Asset_GetIssuer" 1
    ∷ register "Neo.Contract.Create" "Contract_Create"
    ∷ register "Neo.Contract.Migrate" "Contract_Migrate"
    ∷ register_with_price "Neo.Contract.Destroy" "Contract_Destroy" 1
    ∷ register_with_price "Neo.Contract.GetScript" "Contract_GetScript" 1
    ∷ register_with_price "Neo.Contract.IsPayable" "Contract_IsPayable" 1
    ∷ register_with_price "Neo.Contract.GetStorageContext" "Contract_GetStorageContext" 1
    ∷ register_with_price "Neo.Storage.GetContext" "Storage_GetContext" 1
    ∷ register_with_price "Neo.Storage.GetReadOnlyContext" "Storage_GetReadOnlyContext" 1
    ∷ register_with_price "Neo.Storage.Get" "Storage_Get" 100
    ∷ register "Neo.Storage.Put" "Storage_Put"
    ∷ register_with_price "Neo.Storage.Delete" "Storage_Delete" 100
    ∷ register_with_price "Neo.Storage.Find" "Storage_Find" 1
    ∷ register_with_price "Neo.StorageContext.AsReadOnly" "StorageContext_AsReadOnly" 1
    ∷ register_with_price "Neo.Enumerator.Create" "Enumerator_Create" 1
    ∷ register_with_price "Neo.Enumerator.Next" "Enumerator_Next" 1
    ∷ register_with_price "Neo.Enumerator.Value" "Enumerator_Value" 1
    ∷ register_with_price "Neo.Enumerator.Concat" "Enumerator_Concat" 1
    ∷ register_with_price "Neo.Iterator.Create" "Iterator_Create" 1
    ∷ register_with_price "Neo.Iterator.Key" "Iterator_Key" 1
    ∷ register_with_price "Neo.Iterator.Keys" "Iterator_Keys" 1
    ∷ register_with_price "Neo.Iterator.Values" "Iterator_Values" 1
    ∷ register_with_price "Neo.Iterator.Concat" "Iterator_Concat" 1
    ∷ register_with_price "Neo.Iterator.Next" "Enumerator_Next" 1
    ∷ register_with_price "Neo.Iterator.Value" "Enumerator_Value" 1
    ∷ register_with_price "AntShares.Runtime.CheckWitness" "Runtime_CheckWitness" 200
    ∷ register_with_price "AntShares.Runtime.Notify" "Runtime_Notify" 1
    ∷ register_with_price "AntShares.Runtime.Log" "Runtime_Log" 1
    ∷ register_with_price "AntShares.Blockchain.GetHeight" "Blockchain_GetHeight" 1
    ∷ register_with_price "AntShares.Blockchain.GetHeader" "Blockchain_GetHeader" 100
    ∷ register_with_price "AntShares.Blockchain.GetBlock" "Blockchain_GetBlock" 200
    ∷ register_with_price "AntShares.Blockchain.GetTransaction" "Blockchain_GetTransaction" 100
    ∷ register_with_price "AntShares.Blockchain.GetAccount" "Blockchain_GetAccount" 100
    ∷ register_with_price "AntShares.Blockchain.GetValidators" "Blockchain_GetValidators" 200
    ∷ register_with_price "AntShares.Blockchain.GetAsset" "Blockchain_GetAsset" 100
    ∷ register_with_price "AntShares.Blockchain.GetContract" "Blockchain_GetContract" 100
    ∷ register_with_price "AntShares.Header.GetHash" "Header_GetHash" 1
    ∷ register_with_price "AntShares.Header.GetVersion" "Header_GetVersion" 1
    ∷ register_with_price "AntShares.Header.GetPrevHash" "Header_GetPrevHash" 1
    ∷ register_with_price "AntShares.Header.GetMerkleRoot" "Header_GetMerkleRoot" 1
    ∷ register_with_price "AntShares.Header.GetTimestamp" "Header_GetTimestamp" 1
    ∷ register_with_price "AntShares.Header.GetConsensusData" "Header_GetConsensusData" 1
    ∷ register_with_price "AntShares.Header.GetNextConsensus" "Header_GetNextConsensus" 1
    ∷ register_with_price "AntShares.Block.GetTransactionCount" "Block_GetTransactionCount" 1
    ∷ register_with_price "AntShares.Block.GetTransactions" "Block_GetTransactions" 1
    ∷ register_with_price "AntShares.Block.GetTransaction" "Block_GetTransaction" 1
    ∷ register_with_price "AntShares.Transaction.GetHash" "Transaction_GetHash" 1
    ∷ register_with_price "AntShares.Transaction.GetType" "Transaction_GetType" 1
    ∷ register_with_price "AntShares.Transaction.GetAttributes" "Transaction_GetAttributes" 1
    ∷ register_with_price "AntShares.Transaction.GetInputs" "Transaction_GetInputs" 1
    ∷ register_with_price "AntShares.Transaction.GetOutpus" "Transaction_GetOutputs" 1
    ∷ register_with_price "AntShares.Transaction.GetReferences" "Transaction_GetReferences" 200
    ∷ register_with_price "AntShares.Attribute.GetData" "Attribute_GetData" 1
    ∷ register_with_price "AntShares.Attribute.GetUsage" "Attribute_GetUsage" 1
    ∷ register_with_price "AntShares.Input.GetHash" "Input_GetHash" 1
    ∷ register_with_price "AntShares.Input.GetIndex" "Input_GetIndex" 1
    ∷ register_with_price "AntShares.Output.GetAssetId" "Output_GetAssetId" 1
    ∷ register_with_price "AntShares.Output.GetValue" "Output_GetValue" 1
    ∷ register_with_price "AntShares.Output.GetScriptHash" "Output_GetScriptHash" 1
    ∷ register_with_price "AntShares.Account.GetVotes" "Account_GetVotes" 1
    ∷ register_with_price "AntShares.Account.GetBalance" "Account_GetBalance" 1
    ∷ register_with_price "AntShares.Account.GetScriptHash" "Account_GetScriptHash" 1
    ∷ register "AntShares.Asset.Create" "Asset_Create"
    ∷ register "AntShares.Asset.Renew" "Asset_Renew"
    ∷ register_with_price "AntShares.Asset.GetAssetId" "Asset_GetAssetId" 1
    ∷ register_with_price "AntShares.Asset.GetAssetType" "Asset_GetAssetType" 1
    ∷ register_with_price "AntShares.Asset.GetAmount" "Asset_GetAmount" 1
    ∷ register_with_price "AntShares.Asset.GetAvailable" "Asset_GetAvailable" 1
    ∷ register_with_price "AntShares.Asset.GetPrecision" "Asset_GetPrecision" 1
    ∷ register_with_price "AntShares.Asset.GetOwner" "Asset_GetOwner" 1
    ∷ register_with_price "AntShares.Asset.GetAdmin" "Asset_GetAdmin" 1
    ∷ register_with_price "AntShares.Asset.GetIssuer" "Asset_GetIssuer" 1
    ∷ register "AntShares.Contract.Create" "Contract_Create"
    ∷ register "AntShares.Contract.Migrate" "Contract_Migrate"
    ∷ register_with_price "AntShares.Contract.Destroy" "Contract_Destroy" 1
    ∷ register_with_price "AntShares.Contract.GetScript" "Contract_GetScript" 1
    ∷ register_with_price "AntShares.Contract.GetStorageContext" "Contract_GetStorageContext" 1
    ∷ register_with_price "AntShares.Storage.GetContext" "Storage_GetContext" 1
    ∷ register_with_price "AntShares.Storage.Get" "Storage_Get" 100
    ∷ register "AntShares.Storage.Put" "Storage_Put"
    ∷ register_with_price "Neo.Storage.Delete" "Storage_Delete" 100
    ∷ []
